-- ===== src/Frames/Chunks.antt =====
-- The frames do not depend on how the stream is cut into chunks.
use auto_test_poc.Base.{
  All, ◌≢◌, ℕ, zero, suc, ◌<◌, ◌≡◌, refl, sym, ap, ◌∙◌, List, [], ◌∷◌, ◌++◌, none, some, arith,
  length, append_assoc, append-nil, Option-cases, inl, inr,
}
use mathlib.Core.List.{flatten}
use auto_test_poc.Py.Text.{Text}
use auto_test_poc.Frames.{next_frame, keep, decode, extract_loop, extract_messages, receive}
use auto_test_poc.Frames.Find.{next_frame-Found}

loop-done :
    (f : ℕ) (b : Text) (acc : List Text)
    → next_frame b ≡ none
    → extract_loop (suc f) b acc ≡ (acc, b)
unfolding extract_loop
loop-done f b acc done = rw (done, extract_loop)

loop-found :
    (f : ℕ) (b : Text) (acc : List Text) {m r : Text}
    → next_frame b ≡ some (m, r)
    → extract_loop (suc f) b acc ≡ extract_loop f r (keep m acc)
unfolding extract_loop
loop-found f b acc found = rw (found, extract_loop)

extract_loop_enough :
    (f g : ℕ) (b : Text) (acc : List Text)
    → length b < f
    → length b < g
    → extract_loop f b acc ≡ extract_loop g b acc
extract_loop_enough zero g b acc h k = absurd (omega arith)
extract_loop_enough (suc f) zero b acc h k = absurd (omega arith)
extract_loop_enough (suc f) (suc g) b acc h k = elim (Option-cases (next_frame b)) [
  | inl done ↦ rw (loop-done f b acc done, loop-done g b acc done)
  | inr ((m, r), found) ↦
      let shorter = (next_frame-Found b [] found).shorter in
      rw (loop-found f b acc found, loop-found g b acc found)
        (extract_loop_enough f g r (keep m acc) (omega arith) (omega arith))
]

-- The loop with enough fuel, from messages that are already there.
abbrev pub extract_onto : Text → List Text → List Text × Text
extract_onto b acc = extract_loop (suc (length b)) b acc

pub extract_onto-done :
    (b : Text) (acc : List Text) → next_frame b ≡ none → extract_onto b acc ≡ (acc, b)
extract_onto-done b acc done = loop-done (length b) b acc done

pub extract_onto-found :
    (b : Text) (acc : List Text) {m r : Text}
    → next_frame b ≡ some (m, r)
    → extract_onto b acc ≡ extract_onto r (keep m acc)
extract_onto-found b acc {m} {r} found =
    let shorter = (next_frame-Found b [] found).shorter in
    loop-found (length b) b acc found
    ∙ extract_loop_enough (length b) (suc (length r)) r (keep m acc) (omega arith) (omega arith)

keep-append : (m : Text) (xs ys : List Text) → keep m (xs ++ ys) ≡ xs ++ keep m ys
keep-append m xs ys = ground (arith, append_assoc xs ys (decode m ∷ []))

extract_onto-append :
    (n : ℕ) (b : Text) (xs ys : List Text)
    → length b < n
    → extract_onto b (xs ++ ys) ≡ (xs ++ (extract_onto b ys).0, (extract_onto b ys).1)
extract_onto-append zero b xs ys h = absurd (omega arith)
extract_onto-append (suc n) b xs ys h = elim (Option-cases (next_frame b)) [
  | inl done ↦ rw (extract_onto-done b (xs ++ ys) done, extract_onto-done b ys done)
  | inr ((m, r), found) ↦
      let shorter = (next_frame-Found b [] found).shorter in
      rw (extract_onto-found b (xs ++ ys) found, extract_onto-found b ys found, keep-append m xs ys)
        (extract_onto-append n r xs (keep m ys) (omega arith))
]

-- After an extraction no frame is left in the buffer.
extract_onto_rest :
    (n : ℕ) (b : Text) (acc : List Text) → length b < n → next_frame (extract_onto b acc).1 ≡ none
extract_onto_rest zero b acc h = absurd (omega arith)
extract_onto_rest (suc n) b acc h = elim (Option-cases (next_frame b)) [
  | inl done ↦ rw (extract_onto-done b acc done) done
  | inr ((m, r), found) ↦
      let shorter = (next_frame-Found b [] found).shorter in
      rw (extract_onto-found b acc found) (extract_onto_rest n r (keep m acc) (omega arith))
]

-- Extracting from a front, and then from what is left of it with the rest behind.
extract_onto-split :
    (n : ℕ) (b c : Text) (acc : List Text)
    → length b < n
    → extract_onto (b ++ c) acc ≡ extract_onto ((extract_onto b acc).1 ++ c) (extract_onto b acc).0
extract_onto-split zero b c acc h = absurd (omega arith)
extract_onto-split (suc n) b c acc h = elim (Option-cases (next_frame b)) [
  | inl done ↦ rw (extract_onto-done b acc done)
  | inr ((m, r), found) ↦
      let step = next_frame-Found b c found in
      rw (extract_onto-found (b ++ c) acc step.appended, extract_onto-found b acc found)
        (extract_onto-split n r c (keep m acc) (omega (arith, step.shorter)))
]

pub extract_messages-onto :
    (b : Text) (acc : List Text)
    → extract_onto b acc ≡ (acc ++ (extract_messages b).0, (extract_messages b).1)
unfolding extract_messages
extract_messages-onto b acc =
    ap (extract_onto b) (sym (append-nil acc))
    ∙ extract_onto-append (suc (length b)) b acc [] (omega arith)

receive-onto :
    (chunks : List Text) (b : Text) (handled : List Text)
    → All (λ s. s ≢ []) chunks
    → next_frame b ≡ none
    → receive chunks b handled ≡ extract_onto (b ++ flatten chunks) handled
unfolding receive flatten extract_messages
receive-onto [] b handled full quiet =
    sym (ap (λ s. extract_onto s handled) (append-nil b) ∙ extract_onto-done b handled quiet)
receive-onto ([] ∷ chunks) b handled full quiet = absurd (full.0 refl)
receive-onto ((c ∷ s) ∷ chunks) b handled full quiet =
    let chunk = c ∷ s in
    let (ms, rest) = extract_messages (b ++ chunk) in
    receive-onto chunks rest (handled ++ ms) full.1
      (extract_onto_rest (suc (length (b ++ chunk))) (b ++ chunk) [] (omega arith))
    ∙ sym (
        ap (λ s. extract_onto s handled) (sym (append_assoc b chunk (flatten chunks)))
        ∙ extract_onto-split (suc (length (b ++ chunk))) (b ++ chunk) (flatten chunks) handled
            (omega arith)
        ∙ ap (λ (p : List Text × Text). extract_onto (p.1 ++ flatten chunks) p.0)
            (extract_messages-onto (b ++ chunk) handled))

-- However the stream is cut into chunks that are not empty, the server handles the messages that one search of the whole
-- stream finds, in that order, and is left with the same unread bytes.
pub receive-chunks :
    (chunks : List Text)
    → All (λ s. s ≢ []) chunks
    → receive chunks [] [] ≡ extract_messages (flatten chunks)
unfolding extract_messages
receive-chunks chunks full = receive-onto chunks [] [] full (unfold next_frame in refl)

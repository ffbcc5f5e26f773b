-- ===== src/Frames/Find.antt =====
-- The search for a text in a buffer, when bytes are appended to the buffer.
use auto_test_poc.Base.{
  ℕ, ◌+◌, ◌≤◌, ◌<◌, ◌≡◌, refl, true, [], ◌∷◌, ◌++◌, Option, none, some, arith, length, take, drop,
  take-append_le, drop-append_le, length-drop, inl, inr, Option-cases, take-append-drop, ◌∙◌,
}
use mathlib.Core.Path.{sym, ap, ap₂}
use auto_test_poc.Py.Text.{Text, codes, starts_with, find_from, find}
use auto_test_poc.Codec.{soh}
use auto_test_poc.Frames.{next_frame}

starts_with-append : (p s t : Text) → length p ≤ length s → starts_with p (s ++ t) ≡ starts_with p s
starts_with-append [] s t h = refl
starts_with-append (a ∷ p) [] t h = absurd (omega arith)
starts_with-append (a ∷ p) (c ∷ s) t h = rw (starts_with-append p s t (omega arith))

starts_with-length : (p s : Text) → starts_with p s ≡ true → length p ≤ length s
starts_with-length [] s h = omega arith
starts_with-length (a ∷ p) [] h = cc
starts_with-length (a ∷ p) (c ∷ s) h = ground (arith, starts_with-length p s)

-- What is found lies inside the text.
pub find_bound : (p s : Text) {i : ℕ} → find p s ≡ some i → i + length p ≤ length s
unfolding find
find_bound p [] h = ground (arith, starts_with-length p [])
find_bound p (c ∷ s) {i} h = elim (Option-cases (find p s)) [
  | inl lost ↦ ground (arith, starts_with-length p (c ∷ s))
  | inr (j, e) ↦ ground (arith, starts_with-length p (c ∷ s), find_bound p s e)
]

find_empty : (t : Text) → find [] t ≡ some 0
unfolding find
find_empty [] = refl
find_empty (c ∷ t) = refl

-- The first place stays the first when bytes are appended.
pub find-append : (p s t : Text) {i : ℕ} → find p s ≡ some i → find p (s ++ t) ≡ some i
unfolding find
find-append [] [] t h = find_empty t ∙ h
find-append (a ∷ p) [] t h = cc
find-append p (c ∷ s) t {i} h = elim (Option-cases (find p s)) [
  | inl lost ↦ ground (arith, starts_with-length p (c ∷ s), starts_with-append p (c ∷ s) t)
  | inr (j, e) ↦
      ground (arith, find_bound p s e, starts_with-append p (c ∷ s) t, find-append p s t e)
]

-- So too for a search that begins inside the text.
find_from-append :
    (p s t : Text) (start : ℕ) {e : ℕ}
    → start ≤ length s
    → find_from p s start ≡ some e
    → (find_from p (s ++ t) start ≡ some e) × (e + length p ≤ length s)
unfolding find_from
find_from-append p s t start {e} h found = go (find p (drop start s)) refl found
  where
    go :
        (o : Option ℕ)
        → find p (drop start s) ≡ o
        → ◌≡◌ {A = Option ℕ} (elim o [ none ↦ none | some i ↦ some (start + i) ]) (some e)
        → (find_from p (s ++ t) start ≡ some e) × (e + length p ≤ length s)
    go none at found = absurd (ground arith)
    go (some i) at found =
        let later : find p (drop start (s ++ t)) ≡ some i =
          rw (drop-append_le start s t h) (find-append p (drop start s) t at) in
        (
          rw (find_from, later) found,
          ground (arith, find_bound p (drop start s) at, length-drop start s),
        )

pub next_frame-at :
    (b : Text) {idx e : ℕ}
    → find_from (codes "10=") b 0 ≡ some idx
    → find_from (soh ∷ []) b idx ≡ some e
    → next_frame b ≡ some (take (e + 1) b, drop (e + 1) b)
unfolding next_frame
next_frame-at b at ends = ground (arith, at, ends)

-- The places of a round that finds a checksum field.
next_frame-places :
    (b : Text) {m r : Text}
    → next_frame b ≡ some (m, r)
    → (idx : ℕ) × (e : ℕ) × (find_from (codes "10=") b 0 ≡ some idx)
      × (find_from (soh ∷ []) b idx ≡ some e)
unfolding next_frame
next_frame-places b h = elim (Option-cases (find_from (codes "10=") b 0)) [
  | inl lost ↦ absurd (ground (arith, lost))
  | inr (idx, at) ↦ elim (Option-cases (find_from (soh ∷ []) b idx)) [
    | inl lost ↦ absurd (ground (arith, at, lost))
    | inr (e, ends) ↦ (idx, e, at, ends)
  ]
]

pair_parts :
    {a b m r : Text}
    → ◌≡◌ {A = Option (Text × Text)} (some (a, b)) (some (m, r))
    → (a ≡ m) × (b ≡ r)
pair_parts h = (ground arith, ground arith)

-- A round that finds a checksum field takes the front off the buffer, and takes the same front when
-- more bytes stand behind it.
pub record Found (b m r c : Text) : Type 0 where
  pub appended : next_frame (b ++ c) ≡ some (m, r ++ c)
  pub whole : m ++ r ≡ b
  pub shorter : length r < length b

pub next_frame-Found : (b c : Text) {m r : Text} → next_frame b ≡ some (m, r) → Found b m r c
next_frame-Found b c {m} {r} h =
    let (idx, e, at, ends) = next_frame-places b h in
    let (at', in_b) = find_from-append (codes "10=") b c 0 (omega arith) at in
    let (ends', e_in) = find_from-append (soh ∷ []) b c idx (omega arith) ends in
    let (front, rest) = pair_parts (sym (next_frame-at b at ends) ∙ h) in
    record {
      appended =
          next_frame-at (b ++ c) at' ends'
          ∙ ap some (
              ap₂ (λ (x y : Text). (x, y)) (take-append_le (e + 1) b c e_in ∙ front)
                (drop-append_le (e + 1) b c e_in ∙ ap (λ s. s ++ c) rest));
      whole = rw (← front, ← rest) (take-append-drop (e + 1) b);
      shorter = rw (← rest) (omega (arith, length-drop (e + 1) b));
    }

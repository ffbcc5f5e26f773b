-- ===== src/AhdClient/Receive/Exact.antt =====
-- Reading a number of bytes takes as many from the stream, however they arrive.
use auto_test_poc.Base.{
  ℕ, zero, suc, ◌+◌, ◌-◌, ◌≤◌, ◌<◌, ◌≡◌, inl, inr, refl, sym, ap, ◌∙◌, true, false, List, [], ◌∷◌,
  ◌++◌, some, leb, arith, length, take, drop, take-append_le, drop-append_le, Bool-cases,
  append_assoc, append-nil, length-append,
}
use auto_test_poc.Py.Text.{Text}
use auto_test_poc.Ahd.PostBuild.Slices.{drop-append_right}
use auto_test_poc.Ahd.Calendar.Parts.{take-append_right}
use auto_test_poc.AhdClient.Receive.{Arrival, blocked, stopped, chunk, receive_exact}

-- The bytes that arrive.
abbrev pub stream : List Arrival → Text
stream [] = []
stream (blocked ∷ arrivals) = stream arrivals
stream (stopped ∷ arrivals) = stream arrivals
stream (chunk s ∷ arrivals) = s ++ stream arrivals

-- The client is not stopped, and every chunk has a byte.
abbrev pub Flows : List Arrival → Type 0
Flows [] = Unit
Flows (blocked ∷ arrivals) = Flows arrivals
Flows (stopped ∷ arrivals) = ⊥
Flows (chunk [] ∷ arrivals) = ⊥
Flows (chunk (c ∷ s) ∷ arrivals) = Flows arrivals

-- `need` bytes are read behind `acc`, and the rest is left.
abbrev pub IsRead : ℕ → ℕ → Text → List Arrival → Type 0
IsRead need size acc arrivals =
    (rest : List Arrival) × (receive_exact size acc arrivals
      ≡ (some (acc ++ take need (stream arrivals)), rest))
    × Flows rest
    × (stream rest ≡ drop need (stream arrivals))
    × (length rest ≤ length arrivals)

-- Nothing is missing.
IsRead-nothing :
    (size : ℕ) (acc : Text) (arrivals : List Arrival)
    → Flows arrivals
    → length acc ≡ size
    → IsRead 0 size acc arrivals
unfolding receive_exact
IsRead-nothing size acc [] flows e = ([], ground (arith, append-nil acc), tt, refl, omega arith)
IsRead-nothing size acc (blocked ∷ arrivals) flows e =
    (blocked ∷ arrivals, ground (arith, append-nil acc), flows, refl, omega arith)
IsRead-nothing size acc (stopped ∷ arrivals) flows e = absurd flows
IsRead-nothing size acc (chunk [] ∷ arrivals) flows e = absurd flows
IsRead-nothing size acc (chunk (c ∷ s) ∷ arrivals) flows e =
    (chunk (c ∷ s) ∷ arrivals, ground (arith, append-nil acc), flows, refl, omega arith)

Flows-drop :
    (n : ℕ) (s : Text) (arrivals : List Arrival)
    → n < length s
    → Flows arrivals
    → Flows (chunk (drop n s) ∷ arrivals)
Flows-drop n [] arrivals h flows = absurd (omega arith)
Flows-drop zero (c ∷ s) arrivals h flows = flows
Flows-drop (suc n) (c ∷ s) arrivals h flows = Flows-drop n s arrivals (omega arith) flows

chunk_whole :
    (need size : ℕ) (acc : Text) (c : ℕ) (s : Text) (arrivals : List Arrival)
    → length acc + suc need ≡ size
    → length s ≤ need
    → receive_exact size acc (chunk (c ∷ s) ∷ arrivals)
      ≡ receive_exact size (acc ++ (c ∷ s)) arrivals
unfolding receive_exact
chunk_whole need size acc c s arrivals e h =
    let some_missing : leb size (length acc) ≡ false = ground arith in
    let missing : size - length acc ≡ suc need = omega arith in
    let whole : leb (length (c ∷ s)) (suc need) ≡ true = ground arith in
    rw (some_missing, missing, whole) refl

chunk_part :
    (need size : ℕ) (acc : Text) (c : ℕ) (s : Text) (arrivals : List Arrival)
    → length acc + suc need ≡ size
    → suc need < length (c ∷ s)
    → receive_exact size acc (chunk (c ∷ s) ∷ arrivals)
      ≡ (some (acc ++ take (suc need) (c ∷ s)), chunk (drop (suc need) (c ∷ s)) ∷ arrivals)
unfolding receive_exact
chunk_part need size acc c s arrivals e h =
    let some_missing : leb size (length acc) ≡ false = ground arith in
    let missing : size - length acc ≡ suc need = omega arith in
    let more : leb (length (c ∷ s)) (suc need) ≡ false = ground arith in
    rw (some_missing, missing, more) refl

whole_text :
    (acc s t : Text) (need n : ℕ)
    → length s ≡ suc n
    → n ≤ need
    → (acc ++ s) ++ take (need - n) t ≡ acc ++ take (suc need) (s ++ t)
whole_text acc s t need n e h =
    let left : suc need - length s ≡ need - n = omega arith in
    append_assoc acc s (take (need - n) t)
    ∙ ap (λ r. acc ++ r)
        (ap (λ k. s ++ take k t) (sym left) ∙ sym (take-append_right (suc need) s t (omega arith)))

-- If the client is not stopped, every chunk has a byte and enough bytes arrive, exactly the bytes that
-- are missing are read behind `acc`.
pub receive_exact_lem :
    (need size : ℕ) (acc : Text) (arrivals : List Arrival)
    → Flows arrivals
    → length acc + need ≡ size
    → need ≤ length (stream arrivals)
    → IsRead need size acc arrivals
unfolding receive_exact
receive_exact_lem zero size acc arrivals flows e h =
    IsRead-nothing size acc arrivals flows (omega arith)
receive_exact_lem (suc need) size acc [] flows e h = absurd (omega arith)
receive_exact_lem (suc need) size acc (blocked ∷ arrivals) flows e h =
    let (rest, read, f, left, shorter) = receive_exact_lem (suc need) size acc arrivals flows e h in
    (rest, ground (arith, read), f, left, omega arith)
receive_exact_lem (suc need) size acc (stopped ∷ arrivals) flows e h = absurd flows
receive_exact_lem (suc need) size acc (chunk [] ∷ arrivals) flows e h = absurd flows
receive_exact_lem (suc need) size acc (chunk (c ∷ s) ∷ arrivals) flows e h =
    elim (Bool-cases (leb (length (c ∷ s)) (suc need))) [
      | inl whole ↦
          let fits : length s ≤ need = ground arith in
          let (rest, read, f, left, shorter) =
            receive_exact_lem (need - length s) size (acc ++ (c ∷ s)) arrivals flows
              (omega (arith, length-append acc (c ∷ s)))
              (omega (arith, length-append (c ∷ s) (stream arrivals))) in
          (
            rest,
            chunk_whole need size acc c s arrivals e fits
                ∙ read
                ∙ ap (λ t. (some t, rest))
                    (whole_text acc (c ∷ s) (stream arrivals) need (length s) refl fits),
            f,
            left ∙ sym (drop-append_right need s (stream arrivals) fits),
            omega arith,
          )
      | inr more ↦
          let part : suc need < length (c ∷ s) = ground arith in
          (
            chunk (drop (suc need) (c ∷ s)) ∷ arrivals,
            chunk_part need size acc c s arrivals e part
                ∙ ap (λ t. (some (acc ++ t), chunk (drop (suc need) (c ∷ s)) ∷ arrivals))
                    (sym (take-append_le (suc need) (c ∷ s) (stream arrivals) (omega arith))),
            Flows-drop (suc need) (c ∷ s) arrivals part flows,
            sym (drop-append_le (suc need) (c ∷ s) (stream arrivals) (omega arith)),
            omega arith,
          )
    ]

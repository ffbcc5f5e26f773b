-- ===== src/Ahd/PostBuild/Lengths.antt =====
-- What `post_build` writes is read back as the lengths, and the other fields stay as they are.
use auto_test_poc.Base.{
  ℕ, zero, suc, ◌+◌, ◌-◌, ◌≤◌, ◌<◌, ◌≡◌, ◌⊎◌, inl, inr, refl, sym, ap, ◌∙◌, true, false, List, [],
  ◌∷◌, ◌++◌, some, arith, length, take, drop, length-drop, Bool-cases, take-length,
}
use auto_test_poc.Base.Int.{pos}
use auto_test_poc.Py.Exceptions.{ok}
use auto_test_poc.Py.Text.{Text, text_eq, text_eq-eq}
use auto_test_poc.Py.Decimal.{print_ℕ, print_ℤ, length-rjust}
use auto_test_poc.Py.Decimal.Width.{length-print_ℕ, print_ℕ-text_eq}
use auto_test_poc.Padded.{PaddedField, int_m2i}
use auto_test_poc.Padded.RoundTrip.{int_m2i-rjust}
use auto_test_poc.Ahd.Enums.{is_seen}
use auto_test_poc.Ahd.Fields.{Field, slice, field_bytes}
use auto_test_poc.Ahd.PostBuild.{five_wide, length_behind}
use auto_test_poc.Ahd.PostBuild.Slices.{slice-append_left, slice-append_right}

-- The field of a number: five characters, padded with spaces, and nothing stands for no number.
abbrev pub five_field : PaddedField
five_field = record { width = 5; padding = 32; undefined_value = [] }

-- The fields that lie in the same place of `p` and of `q` with the same bytes, or are `changed`.
abbrev pub Agree : List Text → ℕ → List Field → Text → Text → Type 0
Agree changed start [] p q = Unit
Agree changed start (f ∷ fields) p q =
    ((slice start f.width q ≡ slice start f.width p) ⊎ (is_seen f.name changed ≡ true))
    × Agree changed (start + f.width) fields p q

drop-nil : (n : ℕ) → ◌≡◌ {A = Text} (drop n []) []
drop-nil zero = refl
drop-nil (suc n) = refl

pub drop-drop : (m n : ℕ) (s : Text) → drop n (drop m s) ≡ drop (m + n) s
drop-drop zero n s = ap (λ k. drop k s) (omega arith)
drop-drop (suc m) n [] = drop-nil n ∙ sym (drop-nil (suc m + n))
drop-drop (suc m) n (x ∷ s) =
    let e : suc (m + n) ≡ suc m + n = omega arith in drop-drop m n s ∙ ap (λ k. drop k (x ∷ s)) e

pub field_bytes-Agree :
    (changed : List Text) (name : Text) (fields : List Field) (start : ℕ) (p q : Text)
    → is_seen name changed ≡ false
    → Agree changed start fields p q
    → field_bytes name fields (drop start q) ≡ field_bytes name fields (drop start p)
field_bytes-Agree changed name [] start p q h agree = refl
field_bytes-Agree changed name (f ∷ fields) start p q h agree =
    elim (Bool-cases (text_eq name f.name)) [
      | inl same ↦ elim agree.0 [
        | inl kept ↦ rw same kept
        | inr gone ↦ absurd (
            ground (
              arith,
              text_eq-eq name f.name,
              ap (λ t. is_seen t changed) (text_eq-eq name f.name same),
            ))
      ]
      | inr other ↦
          rw (other, drop-drop start f.width q, drop-drop start f.width p)
            (field_bytes-Agree changed name fields (start + f.width) p q h agree.1)
    ]

pub five_wide-length : (n : ℕ) → n < 100000 → length (five_wide (pos n)) ≡ 5
unfolding print_ℤ
five_wide-length n h = length-rjust 5 32 (print_ℕ n) (length-print_ℕ 4 n h)

pub five_wide-read :
    (n : ℕ) → n < 100000 → int_m2i five_field (five_wide (pos n)) ≡ ok (some (pos n))
unfolding print_ℤ
five_wide-read n h =
    int_m2i-rjust five_field n (omega arith) (inl (omega arith)) (length-print_ℕ 4 n h)
      (print_ℕ-text_eq n)

-- What holds of a front of a packet, `q`, that was `p` before its first length was written.
module _ (p payload : Text) (small : length p + length payload < 100005)
    (whole : 5 ≤ length p) where
  abbrev total : ℕ
  total = length p + length payload - 5

  front : five_wide (length_behind p payload) ≡ five_wide (pos total)
  front = ap five_wide (ground arith)

  pub front-length : length (five_wide (length_behind p payload)) ≡ 5
  front-length = ap length front ∙ five_wide-length total (omega arith)

  pub front-read :
      (rest : Text)
      → int_m2i five_field (take 5 (five_wide (length_behind p payload) ++ rest))
        ≡ ok (some (pos total))
  front-read rest =
      ap (int_m2i five_field) (
        ap (λ k. take k (five_wide (length_behind p payload) ++ rest)) (sym front-length)
        ∙ take-length (five_wide (length_behind p payload)) rest
        ∙ front)
      ∙ five_wide-read total (omega arith)

  -- A part of `p` behind the length is a part of the packet.
  pub behind :
      (start width : ℕ) (rest : Text)
      → 5 ≤ start
      → start + width ≤ length p
      → slice start width (five_wide (length_behind p payload) ++ (drop 5 p ++ rest))
        ≡ slice start width p
  behind start width rest h k =
      slice-append_right start width (five_wide (length_behind p payload)) (drop 5 p ++ rest)
        (omega (arith, front-length))
      ∙ ap (λ n. slice (start - n) width (drop 5 p ++ rest)) front-length
      ∙ slice-append_left (start - 5) width (drop 5 p) rest (omega (arith, length-drop 5 p))
      ∙ ap (take width) (drop-drop 5 (start - 5) p ∙ ap (λ n. drop n p) (omega arith))

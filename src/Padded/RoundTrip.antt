-- ===== src/Padded/RoundTrip.antt =====
-- A value that fits into its field is read back.
use auto_test_poc.Base.{
  ℕ, zero, suc, ◌-◌, ◌≤◌, ◌<◌, ◌≡◌, refl, sym, ap, ◌∙◌, false, [], ◌∷◌, ◌++◌, Option, none, some,
  get_or, arith, All-append, length, take, replicate, length-append, length-replicate, ◌≢◌,
  Bool-cases, inl, inr, if◌then◌else◌, append-nil, take-length, ◌⊎◌,
}
use auto_test_poc.Base.Int.{pos}
use auto_test_poc.Py.Exceptions.{ok, unicode_error, guard, ◌>>◌, ◌>>=◌, or_raise, value_error}
use auto_test_poc.Py.Text.{Text, Lacks, text_eq, text_eq_refl, text_eq-eq}
use auto_test_poc.Py.Decimal.{ljust, rjust, print_ℕ, print_ℤ, parse_int-print_ℕ, print_ℕ-Lacks}
use auto_test_poc.Codec.Messages.{IsAscii}
use auto_test_poc.Codec.Shape.{is_ascii-IsAscii, print_ℕ-IsAscii}
use auto_test_poc.Padded.{
  PaddedField, to_ascii, defined, rstrip, lstrip, right_i2m, right_m2i, left_i2m, left_m2i, int_i2m,
  int_m2i, parsed,
}

rstrip-padding : (c n : ℕ) → rstrip c (replicate n c) ≡ []
unfolding rstrip
rstrip-padding c zero = refl
rstrip-padding c (suc n) = ground (arith, rstrip-padding c n)

rstrip-append : (c n : ℕ) (s : Text) → rstrip c (s ++ replicate n c) ≡ rstrip c s
unfolding rstrip
rstrip-append c n [] = rstrip-padding c n
rstrip-append c n (x ∷ s) = rw (rstrip-append c n s) refl

lstrip-append : (c n : ℕ) (s : Text) → lstrip c (replicate n c ++ s) ≡ lstrip c s
unfolding lstrip
lstrip-append c zero s = refl
lstrip-append c (suc n) s = ground (arith, lstrip-append c n s)

take-all : (w : ℕ) (s : Text) → length s ≡ w → take w s ≡ s
take-all w s h =
    ap (λ k. take k s) (sym h) ∙ ap (take (length s)) (sym (append-nil s)) ∙ take-length s []

pub replicate-IsAscii : (n c : ℕ) → c < 128 → IsAscii (replicate n c)
replicate-IsAscii zero c h = tt
replicate-IsAscii (suc n) c h = (h, replicate-IsAscii n c h)

pub to_ascii-IsAscii : (s : Text) → IsAscii s → to_ascii s ≡ ok s
to_ascii-IsAscii s h = ap (λ b. guard b unicode_error >> ok s) (is_ascii-IsAscii s h)

module _ (f : PaddedField) (plain : f.padding < 128) (s : Text) (hs : IsAscii s)
    (fits : length s ≤ f.width) where
  abbrev right_text : Text
  right_text = s ++ replicate (f.width - length s) f.padding

  abbrev left_text : Text
  left_text = replicate (f.width - length s) f.padding ++ s

  right_written : to_ascii (take f.width (ljust f.width f.padding s)) ≡ ok right_text
  right_written =
      ap to_ascii (
        take-all f.width right_text (
          omega (
            arith,
            length-append s (replicate (f.width - length s) f.padding),
            length-replicate (f.width - length s) f.padding,
          )))
      ∙ to_ascii-IsAscii right_text
          (All-append _ s _ hs (replicate-IsAscii (f.width - length s) f.padding plain))

  left_written : to_ascii (take f.width (rjust f.width f.padding s)) ≡ ok left_text
  left_written =
      ap to_ascii (
        take-all f.width left_text (
          omega (
            arith,
            length-append (replicate (f.width - length s) f.padding) s,
            length-replicate (f.width - length s) f.padding,
          )))
      ∙ to_ascii-IsAscii left_text (
          All-append _ (replicate (f.width - length s) f.padding) _
            (replicate-IsAscii (f.width - length s) f.padding plain) hs)

  right_read : right_m2i f right_text ≡ ok (defined f (rstrip f.padding s))
  unfolding right_m2i
  right_read =
      ap (λ r. r >>= λ decoded. ok (defined f (rstrip f.padding decoded)))
        (to_ascii-IsAscii right_text
          (All-append _ s _ hs (replicate-IsAscii (f.width - length s) f.padding plain)))
      ∙ ap (λ t. ok (defined f t)) (rstrip-append f.padding (f.width - length s) s)

  left_read : left_m2i f left_text ≡ ok (defined f (lstrip f.padding s))
  unfolding left_m2i
  left_read =
      ap (λ r. r >>= λ decoded. ok (defined f (lstrip f.padding decoded)))
        (to_ascii-IsAscii left_text (
          All-append _ (replicate (f.width - length s) f.padding) _
            (replicate-IsAscii (f.width - length s) f.padding plain) hs))
      ∙ ap (λ t. ok (defined f t)) (lstrip-append f.padding (f.width - length s) s)

-- The text does not end, and does not begin, with the character.
abbrev pub NoEnd : ℕ → Text → Type 0
NoEnd c [] = Unit {0}
NoEnd c (x ∷ []) = x ≢ c
NoEnd c (x ∷ y ∷ s) = NoEnd c (y ∷ s)

abbrev pub NoStart : ℕ → Text → Type 0
NoStart c [] = Unit {0}
NoStart c (x ∷ s) = x ≢ c

rstrip-NoEnd : (c : ℕ) (s : Text) → NoEnd c s → rstrip c s ≡ s
unfolding rstrip
rstrip-NoEnd c [] h = refl
rstrip-NoEnd c (x ∷ []) h = ground arith
rstrip-NoEnd c (x ∷ y ∷ s) h = ground (arith, rstrip-NoEnd c (y ∷ s) h)

lstrip-NoStart : (c : ℕ) (s : Text) → NoStart c s → lstrip c s ≡ s
unfolding lstrip
lstrip-NoStart c [] h = refl
lstrip-NoStart c (x ∷ s) h = ground arith

defined-value :
    (f : PaddedField) (x : Option Text)
    → x ≢ some f.undefined_value
    → defined f (get_or x f.undefined_value) ≡ x
defined-value f none h = rw (text_eq_refl f.undefined_value) refl
defined-value f (some s) h = elim (Bool-cases (text_eq s f.undefined_value)) [
  | inl same ↦ absurd (h (ap some (text_eq-eq s f.undefined_value same)))
  | inr other ↦ rw other refl
]

-- What is written is read back as what is left of it without the padding.
pub m2i-i2m :
    (f : PaddedField) (x : Option Text)
    → f.padding < 128
    → IsAscii (get_or x f.undefined_value)
    → length (get_or x f.undefined_value) ≤ f.width
    → ((right_i2m f x >>= right_m2i f)
        ≡ ok (defined f (rstrip f.padding (get_or x f.undefined_value))))
      × ((left_i2m f x >>= left_m2i f)
          ≡ ok (defined f (lstrip f.padding (get_or x f.undefined_value))))
unfolding right_i2m left_i2m
m2i-i2m f x plain hs fits =
    let s = get_or x f.undefined_value in
    (
      ap (λ r. r >>= right_m2i f) (right_written f plain s hs fits) ∙ right_read f plain s hs fits,
      ap (λ r. r >>= left_m2i f) (left_written f plain s hs fits) ∙ left_read f plain s hs fits,
    )

-- A text is written to a field padded on the right, or on the left, and read back as it was, and a
-- missing value is read back as missing. What is written, which is the undefined value where the value is
-- missing, is ASCII as the padding is, is not longer than the field, and neither begins nor ends with the
-- padding; and the text is not the undefined value.
pub right_m2i-right_i2m :
    (f : PaddedField) (x : Option Text)
    → f.padding < 128
    → IsAscii (get_or x f.undefined_value)
    → length (get_or x f.undefined_value) ≤ f.width
    → NoStart f.padding (get_or x f.undefined_value)
    → NoEnd f.padding (get_or x f.undefined_value)
    → x ≢ some f.undefined_value
    → ((right_i2m f x >>= right_m2i f) ≡ ok x) × ((left_i2m f x >>= left_m2i f) ≡ ok x)
right_m2i-right_i2m f x plain hs fits starts ends known =
    let s = get_or x f.undefined_value in
    let (right, left) = m2i-i2m f x plain hs fits in
    (
      right
          ∙ ap (λ t. ok (defined f t)) (rstrip-NoEnd f.padding s ends)
          ∙ ap ok (defined-value f x known),
      left
          ∙ ap (λ t. ok (defined f t)) (lstrip-NoStart f.padding s starts)
          ∙ ap ok (defined-value f x known),
    )

lstrip-Lacks : (c : ℕ) (s : Text) → Lacks c s → lstrip c s ≡ s
unfolding lstrip
lstrip-Lacks c [] h = refl
lstrip-Lacks c (x ∷ s) h = ground arith

-- The digits of a number, padded on the left, are read as the number.
pub int_m2i-rjust :
    (f : PaddedField) (n : ℕ)
    → f.padding < 128
    → (f.padding < b'0') ⊎ (b'9' < f.padding)
    → length (print_ℕ n) ≤ f.width
    → text_eq (print_ℕ n) f.undefined_value ≡ false
    → int_m2i f (rjust f.width f.padding (print_ℕ n)) ≡ ok (some (pos n))
unfolding int_m2i
int_m2i-rjust f n plain no_digit fits known =
    ap (λ r. r >>= parsed) (left_read f plain (print_ℕ n) (print_ℕ-IsAscii n) fits)
    ∙ ap (λ s. parsed (defined f s))
        (lstrip-Lacks f.padding (print_ℕ n) (print_ℕ-Lacks f.padding n no_digit))
    ∙ ap (λ b. parsed (if b then none else some (print_ℕ n))) known
    ∙ ap (λ o. or_raise o value_error >>= λ k. ok (some k)) (parse_int-print_ℕ n)

-- A number that is not negative and fits into its field is written and read back, where the field is
-- padded with an ASCII character that is no digit, and the number does not print as the undefined value.
pub int_m2i-int_i2m :
    (f : PaddedField) (n : ℕ)
    → f.padding < 128
    → (f.padding < b'0') ⊎ (b'9' < f.padding)
    → length (print_ℕ n) ≤ f.width
    → text_eq (print_ℕ n) f.undefined_value ≡ false
    → (int_i2m f (some (pos n)) >>= int_m2i f) ≡ ok (some (pos n))
unfolding int_i2m left_i2m print_ℤ
int_m2i-int_i2m f n plain no_digit fits known =
    ap (λ r. r >>= int_m2i f) (left_written f plain (print_ℕ n) (print_ℕ-IsAscii n) fits)
    ∙ int_m2i-rjust f n plain no_digit fits known

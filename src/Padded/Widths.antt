-- ===== src/Padded/Widths.antt =====
-- Every value is written in the width of its field.
use auto_test_poc.Base.{
  ℕ, ◌-◌, ◌≤◌, ◌≡◌, sym, ap, ◌∙◌, Option, get_or, arith, length, take, replicate, length-take,
  length-append, length-replicate, Bool-cases, inl, inr,
}
use auto_test_poc.Base.Int.{ℤ}
use auto_test_poc.Py.Exceptions.{ok}
use auto_test_poc.Py.Text.{Text}
use auto_test_poc.Py.Decimal.{ljust, rjust}
use auto_test_poc.Codec.{is_ascii}
use auto_test_poc.Padded.{PaddedField, to_ascii, right_i2m, left_i2m, int_i2m, printed}

to_ascii-same : (s b : Text) → to_ascii s ≡ ok b → s ≡ b
to_ascii-same s b h = elim (Bool-cases (is_ascii s)) [
  | inl plain ↦ ground (arith, plain, h)
  | inr other ↦ absurd (ground (arith, other, h))
]

cut-width : (w : ℕ) (s : Text) → w ≤ length s → length (take w s) ≡ w
cut-width w s h = omega (arith, length-take w s, h)

-- Whatever is written, a missing value or one that is too long included, takes the width of the field:
-- in a field padded on the right, in one padded on the left, and in one of a number.
pub i2m-width :
    (f : PaddedField) (x : Option Text) (n : Option ℤ) (a b c : Text)
    → right_i2m f x ≡ ok a
    → left_i2m f x ≡ ok b
    → int_i2m f n ≡ ok c
    → (length a ≡ f.width) × (length b ≡ f.width) × (length c ≡ f.width)
unfolding right_i2m left_i2m int_i2m
i2m-width f x n a b c ha hb hc = (
  right,
  left (get_or x f.undefined_value) b hb,
  left (get_or (printed n) f.undefined_value) c hc,
)
  where
    left :
        (s b : Text)
        → to_ascii (take f.width (rjust f.width f.padding s)) ≡ ok b
        → length b ≡ f.width
    left s b h =
        ap length (sym (to_ascii-same _ b h))
        ∙ cut-width f.width (rjust f.width f.padding s) (
            omega (
              arith,
              length-append (replicate (f.width - length s) f.padding) s,
              length-replicate (f.width - length s) f.padding,
            ))

    right : length a ≡ f.width
    right =
        let s = get_or x f.undefined_value in
        ap length (sym (to_ascii-same _ a ha))
        ∙ cut-width f.width (ljust f.width f.padding s) (
            omega (
              arith,
              length-append s (replicate (f.width - length s) f.padding),
              length-replicate (f.width - length s) f.padding,
            ))

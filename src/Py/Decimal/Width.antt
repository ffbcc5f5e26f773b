-- ===== src/Py/Decimal/Width.antt =====
-- How many digits a number is printed with.
use native.Mathlib.Numerals.{unary_clauses}
use auto_test_poc.Base.{
  ℕ, zero, suc, ◌+◌, ◌*◌, ◌/◌, ◌%◌, ◌^◌, ◌<◌, ◌-◌, All, All-append, replicate, ◌≤◌, ◌≡◌, ◌≢◌, refl,
  ◌∙◌, false, [], ◌∷◌, arith, length, length-append,
}
use auto_test_poc.Py.Text.{Text, text_eq}
use auto_test_poc.Py.Decimal.{
  digits, digits-ne-nil, print_ℕ, rjust, value, IsDigit, value-zeros, value-digits, zeros-IsDigit,
  print_ℕ-IsDigit, length-rjust,
}

ten_pow : (k : ℕ) → 10 ^ suc k ≡ 10 * 10 ^ k
ten_pow k = simp unary_clauses (omega arith)

length-digits : (k f n : ℕ) → n < 10 ^ suc k → length (digits f n) ≤ suc k
unfolding digits
length-digits k zero n h = omega arith
length-digits zero (suc f) n h = ground (arith, ten_pow 0)
length-digits (suc k) (suc f) n h = ground (
  arith,
  ten_pow (suc k),
  length-digits k f (n / 10),
  length-append (digits f (n / 10)) ((b'0' + n % 10) ∷ []),
)

-- A number below a power of ten has at most that many digits.
pub length-print_ℕ : (k n : ℕ) → n < 10 ^ suc k → length (print_ℕ n) ≤ suc k
unfolding print_ℕ
length-print_ℕ k n h = length-digits k (suc n) n h

text_eq-nil : (s : Text) → s ≢ [] → text_eq s [] ≡ false
text_eq-nil [] h = absurd (h refl)
text_eq-nil (c ∷ s) h = refl

-- A number is never printed as the empty text.
pub print_ℕ-text_eq : (n : ℕ) → text_eq (print_ℕ n) [] ≡ false
unfolding print_ℕ
print_ℕ-text_eq n = text_eq-nil _ (digits-ne-nil (suc n) n (omega arith))

-- The digits of a number, padded with zeros, are digits and spell the number.
pub value-rjust : (w n : ℕ) → value 0 (rjust w b'0' (print_ℕ n)) ≡ n
unfolding print_ℕ
value-rjust w n =
    value-zeros (w - length (digits (suc n) n)) (digits (suc n) n)
    ∙ value-digits (suc n) n (omega arith)

pub rjust-IsDigit : (w n : ℕ) → All IsDigit (rjust w b'0' (print_ℕ n))
rjust-IsDigit w n =
    All-append IsDigit (replicate (w - length (print_ℕ n)) b'0') (print_ℕ n) (zeros-IsDigit _)
      (print_ℕ-IsDigit n)

pub length-zeros : (k n : ℕ) → n < 10 ^ suc k → length (rjust (suc k) b'0' (print_ℕ n)) ≡ suc k
length-zeros k n h = length-rjust (suc k) b'0' (print_ℕ n) (length-print_ℕ k n h)

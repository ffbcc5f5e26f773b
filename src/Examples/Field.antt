-- ===== src/Examples/Field.antt =====
-- A field of eight characters, padded with blanks.
use auto_test_poc.Base.{◌≡◌, refl, some, [], arith, length, inl, false, ◌≤◌}
use auto_test_poc.Base.Int.{pos}
use auto_test_poc.Py.Exceptions.{ok, ◌>>=◌}
use auto_test_poc.Py.Text.{codes, text_eq}
use auto_test_poc.Py.Decimal.{print_ℕ, print_ℤ}
use auto_test_poc.Padded.{PaddedField, right_i2m, right_m2i, left_i2m, left_m2i, int_i2m, int_m2i}
use auto_test_poc.Padded.Widths.{i2m-width}
use auto_test_poc.Padded.RoundTrip.{right_m2i-right_i2m, int_m2i-int_i2m}

abbrev eight : PaddedField
eight = record { width = 8; padding = b' '; undefined_value = [] }

right_code : right_i2m eight (some (codes "7203")) ≡ ok (codes "7203    ")
unfolding right_i2m
right_code = refl

left_code : left_i2m eight (some (codes "7203")) ≡ ok (codes "    7203")
unfolding left_i2m
left_code = refl

number_code : int_i2m eight (some (pos 42)) ≡ ok (codes "      42")
unfolding int_i2m left_i2m print_ℤ print_ℕ
number_code = refl

i2m-width_example :
    (length (codes "7203    ") ≡ eight.width)
    × (length (codes "    7203") ≡ eight.width)
    × (length (codes "      42") ≡ eight.width)
i2m-width_example =
    i2m-width eight (some (codes "7203")) (some (pos 42)) (codes "7203    ") (codes "    7203")
      (codes "      42") right_code left_code number_code

right_m2i-right_i2m_example :
    ((right_i2m eight (some (codes "7203")) >>= right_m2i eight) ≡ ok (some (codes "7203")))
    × ((left_i2m eight (some (codes "7203")) >>= left_m2i eight) ≡ ok (some (codes "7203")))
right_m2i-right_i2m_example =
    right_m2i-right_i2m eight (some (codes "7203")) (omega arith) (omega arith) (omega arith)
      (omega arith) (omega arith) (ground arith)

two_digits : length (print_ℕ 42) ≤ eight.width
unfolding print_ℕ
two_digits = omega arith

printed_42 : text_eq (print_ℕ 42) eight.undefined_value ≡ false
unfolding print_ℕ
printed_42 = refl

int_m2i-int_i2m_example : (int_i2m eight (some (pos 42)) >>= int_m2i eight) ≡ ok (some (pos 42))
int_m2i-int_i2m_example =
    int_m2i-int_i2m eight 42 (omega arith) (inl (omega arith)) two_digits printed_42

-- ===== src/Padded.antt =====
-- The padded fields of common/scapy_utils.py: a value as the bytes of fixed width that stand for it.
pub mod Widths
pub mod RoundTrip
use auto_test_poc.Base.{
  ℕ, ◌-◌, Bool, true, false, List, [], ◌∷◌, ◌++◌, Option, none, some, if◌then◌else◌, ◌==◌, take,
  length, replicate, get_or,
}
use auto_test_poc.Base.Int.{ℤ}
use auto_test_poc.Py.Exceptions.{
  Result, ok, err, Error, unicode_error, value_error, ◌>>=◌, ◌>>◌, guard, or_raise,
}
use auto_test_poc.Py.Text.{Text, text_eq}
use auto_test_poc.Py.Decimal.{print_ℤ, parse_int, ljust, rjust}
use auto_test_poc.Codec.{is_ascii}

-- `s.rstrip(c)` and `s.lstrip(c)` at one character
unfoldable pub rstrip : ℕ → Text → Text
rstrip c [] = []
rstrip c (x ∷ s) = elim (rstrip c s) [ [] ↦ if x == c then [] else x ∷ [] | y ∷ t ↦ x ∷ y ∷ t ]

unfoldable pub lstrip : ℕ → Text → Text
lstrip c [] = []
lstrip c (x ∷ s) = let rest = lstrip c s in if x == c then rest else x ∷ s

-- What a padded field was constructed with; `length_from` gives the width.
pub record PaddedField : Type 0 where
  pub width : ℕ
  pub padding : ℕ
  pub undefined_value : Text

-- `x.encode("ascii")`, and `s.decode("ascii")`
abbrev pub to_ascii : Text → Result Text
to_ascii s = guard (is_ascii s) unicode_error >> ok s

-- `None if stripped == self.undefined_value else stripped`
abbrev pub defined : PaddedField → Text → Option Text
defined f stripped = if text_eq stripped f.undefined_value then none else some stripped

-- `RPaddedStrFixedLenField`
unfoldable pub right_i2m : PaddedField → Option Text → Result Text
right_i2m f x = to_ascii (take f.width (ljust f.width f.padding (get_or x f.undefined_value)))

unfoldable pub right_m2i : PaddedField → Text → Result (Option Text)
unfolding rstrip
right_m2i f s = to_ascii s >>= λ decoded. ok (defined f (rstrip f.padding decoded))

-- `LPaddedStrFixedLenField`
unfoldable pub left_i2m : PaddedField → Option Text → Result Text
left_i2m f x = to_ascii (take f.width (rjust f.width f.padding (get_or x f.undefined_value)))

unfoldable pub left_m2i : PaddedField → Text → Result (Option Text)
unfolding lstrip
left_m2i f s = to_ascii s >>= λ decoded. ok (defined f (lstrip f.padding decoded))

-- `LPaddedAsciiIntFixedLenField`
abbrev pub printed : Option ℤ → Option Text
printed none = none
printed (some n) = some (print_ℤ n)

unfoldable pub int_i2m : PaddedField → Option ℤ → Result Text
unfolding left_i2m
int_i2m f x = left_i2m f (printed x)

abbrev pub parsed : Option Text → Result (Option ℤ)
parsed none = ok none
parsed (some s) = or_raise (parse_int s) value_error >>= λ n. ok (some n)

unfoldable pub int_m2i : PaddedField → Text → Result (Option ℤ)
unfolding left_m2i
int_m2i f s = left_m2i f s >>= parsed

-- ===== src/Ahd/Price.antt =====
-- The prices of common/ahd_msg.py. Floating point numbers are a parameter.
pub mod RoundTrip
use auto_test_poc.Base.{
  ℕ, suc, ◌+◌, ◌-◌, ◌^◌, [], ◌∷◌, ◌++◌, Option, none, some, if◌then◌else◌, replicate,
}
use auto_test_poc.Base.Int.{ℤ, pos, negsuc}
use auto_test_poc.Py.Exceptions.{Result, ok, err, value_error, ◌>>=◌, or_raise}
use auto_test_poc.Py.Text.{Text, text_eq}
use auto_test_poc.Py.Decimal.{print_ℕ, rjust}
use auto_test_poc.Padded.{PaddedField, left_i2m, left_m2i, to_ascii}

-- Python's floats: `float(n)`, `float(s)`, `x * float(k)`, `x / float(k)` and `int(round(x))`.
pub record Floats : Type 1 where
  pub Float : Type 0
  pub whole : ℕ → Float
  pub of_text : Text → Option Float
  pub times : Float → ℕ → Float
  pub over : Float → ℕ → Float
  pub rounded : Float → Result ℤ

-- The digits on both sides of the point.
pub record PriceField : Type 0 where
  pub integer_digits : ℕ
  pub decimal_digits : ℕ

abbrev pub factor : PriceField → ℕ
factor f = 10 ^ f.decimal_digits

-- The text field that `PriceField.__init__` sets up.
abbrev pub price_text : PriceField → PaddedField
price_text f = record {
  width = f.integer_digits + f.decimal_digits + 1;
  padding = 32;
  undefined_value = [];
}

-- `self.fmt.format(n)`
abbrev pub price_digits : PriceField → ℤ → Text
price_digits f (pos n) = rjust (f.decimal_digits + 1) b'0' (print_ℕ n)
price_digits f (negsuc n) = b'-' ∷ rjust f.decimal_digits b'0' (print_ℕ (suc n))

-- `"0" + " " * (length - 2)`
abbrev pub market_text : PriceField → Text
market_text f = b'0' ∷ replicate ((price_text f).width - 2) 32

module _ (floats : Floats) where
  open floats use {Float, of_text, times, over, rounded}

  -- `None`, `"market"` or a number
  pub data Price : Type 0 where
    absent market : Price
    limit : (x : Float) → Price

  -- What a caller may assign to a price.
  pub data Assigned : Type 0 where
    number : (x : Float) → Assigned
    text bytes : (s : Text) → Assigned
    nothing : Assigned

  abbrev pub scaled : PriceField → Text → Result Float
  scaled f s = or_raise (of_text s) value_error >>= λ v. ok (over v (factor f))

  -- `PriceField.any2i`
  unfoldable pub price_any2i : PriceField → Assigned → Result Float
  price_any2i f (number x) = ok x
  price_any2i f (text s) = scaled f s
  price_any2i f (bytes s) = to_ascii s >>= scaled f
  price_any2i f nothing = err value_error

  -- `PriceField.i2m`
  unfoldable pub price_i2m : PriceField → Price → Result Text
  price_i2m f absent = left_i2m (price_text f) none
  price_i2m f market = left_i2m (price_text f) (some (market_text f))
  price_i2m f (limit x) =
      rounded (times x (factor f)) >>= λ n. left_i2m (price_text f) (some (price_digits f n))

  -- What `PriceField.m2i` makes of the text without its padding.
  abbrev pub price_of : PriceField → Option Text → Result Price
  price_of f none = ok absent
  price_of f (some x) =
      if text_eq x (market_text f)
      then ok market
      else or_raise (of_text x) value_error >>= λ v. ok (limit (over v (factor f)))

  -- `PriceField.m2i`
  unfoldable pub price_m2i : PriceField → Text → Result Price
  price_m2i f s = left_m2i (price_text f) s >>= price_of f

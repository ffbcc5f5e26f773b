-- ===== src/Ahd/Price/RoundTrip.antt =====
-- Prices are read back from their fields.
use auto_test_poc.Base.{
  ℕ, suc, ◌+◌, ◌-◌, ◌^◌, ◌≤◌, ◌<◌, ◌≡◌, refl, ap, ◌∙◌, false, [], ◌∷◌, none, some, arith,
  if◌then◌else◌, length, replicate, length-append, length-replicate, All,
}
use auto_test_poc.Base.Int.{pos}
use auto_test_poc.Py.Exceptions.{Result, err, ok, ◌>>=◌, or_raise, value_error}
use auto_test_poc.Py.Text.{Text, text_eq, text_eq_refl}
use auto_test_poc.Py.Decimal.{IsDigit, print_ℕ}
use auto_test_poc.Py.Decimal.Width.{rjust-IsDigit, length-print_ℕ}
use auto_test_poc.Codec.Messages.{IsAscii}
use auto_test_poc.Padded.{left_i2m, left_m2i, lstrip, defined}
use auto_test_poc.Padded.RoundTrip.{m2i-i2m, replicate-IsAscii}
use auto_test_poc.Ahd.Calendar.Parts.{IsDigit-IsAscii}
use auto_test_poc.Ahd.Price.{
  Floats, PriceField, factor, price_text, price_digits, market_text, absent, market, limit,
  price_i2m, price_m2i, price_of,
}

bind_assoc :
    {A B C : Type 0} (m : Result A) (g : A → Result B) (h : B → Result C)
    → (m >>= λ a. g a >>= h) ≡ ((m >>= g) >>= h)
bind_assoc (ok a) g h = refl
bind_assoc (err e) g h = refl

digits-not_market :
    (s : Text) (k : ℕ) → All IsDigit s → text_eq s (b'0' ∷ 32 ∷ replicate k 32) ≡ false
digits-not_market [] k h = refl
digits-not_market (c ∷ []) k h = ground arith
digits-not_market (c ∷ d ∷ s) k h = ground arith

-- Digits are not stripped, and are no missing value.
lstrip-IsDigit : (s : Text) → All IsDigit s → lstrip 32 s ≡ s
unfolding lstrip
lstrip-IsDigit [] h = refl
lstrip-IsDigit (c ∷ s) h = ground arith

not-nil : (s : Text) (n : ℕ) → length s ≡ suc n → text_eq s [] ≡ false
not-nil [] n h = absurd (omega arith)
not-nil (c ∷ s) n h = refl

module _ (f : PriceField) (wide : 2 ≤ f.integer_digits + f.decimal_digits) where
  -- A text that fits and does not begin with a space.
  text_read :
      (s : Text)
      → IsAscii s
      → length s ≤ (price_text f).width
      → lstrip 32 s ≡ s
      → text_eq s [] ≡ false
      → (left_i2m (price_text f) (some s) >>= left_m2i (price_text f)) ≡ ok (some s)
  text_read s ascii fits whole known =
      (m2i-i2m (price_text f) (some s) (omega arith) ascii fits).1
      ∙ ap (λ t. ok (defined (price_text f) t)) whole
      ∙ ap (λ b. ok (if b then none else some s)) known

  market_read :
      (left_i2m (price_text f) (some (market_text f)) >>= left_m2i (price_text f))
      ≡ ok (some (market_text f))
  unfolding lstrip
  market_read =
      text_read (market_text f)
        (omega arith, replicate-IsAscii ((price_text f).width - 2) 32 (omega arith))
        (omega (arith, length-replicate {A = ℕ} ((price_text f).width - 2) 32)) refl refl

  none_read : (left_i2m (price_text f) none >>= left_m2i (price_text f)) ≡ ok none
  unfolding lstrip
  none_read = (m2i-i2m (price_text f) none (omega arith) tt (omega arith)).1

  module _ (n : ℕ) (fits : n < 10 ^ suc (f.integer_digits + f.decimal_digits)) where
    digits_length :
        (suc f.decimal_digits ≤ length (price_digits f (pos n)))
        × (length (price_digits f (pos n)) ≤ (price_text f).width)
    digits_length = omega (
      arith,
      length-print_ℕ (f.integer_digits + f.decimal_digits) n fits,
      length-append (replicate (f.decimal_digits + 1 - length (print_ℕ n)) b'0') (print_ℕ n),
      length-replicate {A = ℕ} (f.decimal_digits + 1 - length (print_ℕ n)) b'0',
    )

    digits_read :
        (left_i2m (price_text f) (some (price_digits f (pos n))) >>= left_m2i (price_text f))
        ≡ ok (some (price_digits f (pos n)))
    digits_read =
        let digits = rjust-IsDigit (f.decimal_digits + 1) n in
        text_read (price_digits f (pos n)) (IsDigit-IsAscii _ digits) digits_length.1
          (lstrip-IsDigit _ digits)
          (not-nil _ (length (price_digits f (pos n)) - 1) (omega (arith, digits_length.0)))

    not_market : text_eq (price_digits f (pos n)) (market_text f) ≡ false
    not_market =
        let wider : (price_text f).width - 2 ≡ suc ((price_text f).width - 3) = omega arith in
        ap (λ k. text_eq (price_digits f (pos n)) (b'0' ∷ replicate k 32)) wider
        ∙ digits-not_market (price_digits f (pos n)) ((price_text f).width - 3)
            (rjust-IsDigit (f.decimal_digits + 1) n)

-- A field of a price with at least two digits: no price is read back as none, the market price as the
-- market price, and the floating point number for `n` ticks as it was, if `n` fits into the field, the
-- digits of `n` are read as the number `n`, and counting the ticks of the number gives `n`.
pub price_m2i-price_i2m :
    (floats : Floats) (f : PriceField) (n : ℕ)
    → 2 ≤ f.integer_digits + f.decimal_digits
    → n < 10 ^ suc (f.integer_digits + f.decimal_digits)
    → floats.of_text (price_digits f (pos n)) ≡ some (floats.whole n)
    → floats.rounded (floats.times (floats.over (floats.whole n) (factor f)) (factor f))
      ≡ ok (pos n)
    → ((price_i2m floats f (limit (floats.over (floats.whole n) (factor f))) >>= price_m2i floats f)
        ≡ ok (limit (floats.over (floats.whole n) (factor f))))
      × ((price_i2m floats f absent >>= price_m2i floats f) ≡ ok absent)
      × ((price_i2m floats f market >>= price_m2i floats f) ≡ ok market)
unfolding price_i2m price_m2i
price_m2i-price_i2m floats f n wide fits read exact = (
  ap (λ r. (r >>= λ k. left_i2m (price_text f) (some (price_digits f k))) >>= price_m2i floats f)
        exact
      ∙ bind_assoc (left_i2m (price_text f) (some digits)) (left_m2i (price_text f))
          (price_of floats f)
      ∙ ap (λ r. r >>= price_of floats f) (digits_read f wide n fits)
      ∙ ap
          (λ b.
            if b
            then ok market
            else or_raise (floats.of_text digits) value_error >>= λ v.
                ok (limit (floats.over v (factor f))))
          (not_market f wide n fits)
      ∙ ap (λ o. or_raise o value_error >>= λ v. ok (limit (floats.over v (factor f)))) read,
  bind_assoc (left_i2m (price_text f) none) (left_m2i (price_text f)) (price_of floats f)
      ∙ ap (λ r. r >>= price_of floats f) (none_read f wide),
  bind_assoc (left_i2m (price_text f) (some (market_text f))) (left_m2i (price_text f))
        (price_of floats f)
      ∙ ap (λ r. r >>= price_of floats f) (market_read f wide)
      ∙ ap
          (λ b.
            if b
            then ok market
            else or_raise (floats.of_text (market_text f)) value_error >>= λ v.
                ok (limit (floats.over v (factor f))))
          (text_eq_refl (market_text f)),
)
  where
    digits : Text
    digits = price_digits f (pos n)

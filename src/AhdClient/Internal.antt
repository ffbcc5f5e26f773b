-- ===== src/AhdClient/Internal.antt =====
-- `AHDClient._generate_next_internal` of common/ahd_cli.py: the identifiers of new orders.
use auto_test_poc.Base.{
  ℕ, zero, suc, ◌+◌, ◌-◌, ◌^◌, ◌<◌, ◌≡◌, refl, sym, ap, ◌∙◌, true, [], ◌∷◌, ◌++◌, if◌then◌else◌,
  leb, arith, length, length-append, drop, replicate, All, drop-length,
}
use mathlib.Core.Path.{subst}
use auto_test_poc.Base.Int.{ℤ, pos, ◌+ℤ◌}
use auto_test_poc.Py.Exceptions.{Result, ok, value_error, ◌>>=◌, ◌>>◌, guard, or_raise}
use auto_test_poc.Py.Text.{Text}
use auto_test_poc.Py.Decimal.{
  print_ℕ, print_ℤ, parse_int, rjust, is_digit, IsDigit, parse_int-rjust,
}
use auto_test_poc.Py.Decimal.Width.{rjust-IsDigit, length-zeros}

-- `s.rstrip("0123456789")`
unfoldable pub rstrip_digits : Text → Text
rstrip_digits [] = []
rstrip_digits (c ∷ s) = elim (rstrip_digits s) [
  | [] ↦ if is_digit c then [] else c ∷ []
  | d ∷ t ↦ c ∷ d ∷ t
]

-- `prefix + "0" * (20 - len(prefix))`
abbrev pub first_internal : Text → Text
first_internal prefix = prefix ++ replicate (20 - length prefix) b'0'

-- `f"{prefix}{n:0{20 - len(prefix)}d}"`: a width below zero is no format. `n` comes from digits, so it has
-- no sign.
abbrev pub numbered_internal : Text → ℤ → Result Text
numbered_internal prefix n =
    guard (leb (length prefix) 20) value_error
    >> ok (prefix ++ rjust (20 - length prefix) b'0' (print_ℤ n))

unfoldable pub generate_next_internal : Text → Result Text
unfolding rstrip_digits
generate_next_internal last_sent =
    let prefix = rstrip_digits last_sent in
    or_raise (parse_int (drop (length prefix) last_sent)) value_error >>= λ n.
    numbered_internal prefix (n +ℤ pos 1)

-- Repeated calls, each of which stores its result in `last_sent_internal`.
pub generate_times : ℕ → Text → Result Text
generate_times zero last_sent = ok last_sent
generate_times (suc n) last_sent = generate_times n last_sent >>= generate_next_internal

-- The text is empty or does not end in a digit.
abbrev pub EndsPlain : Text → Type 0
EndsPlain prefix = rstrip_digits prefix ≡ prefix

rstrip_digits-IsDigit : (s : Text) → All IsDigit s → rstrip_digits s ≡ []
unfolding rstrip_digits
rstrip_digits-IsDigit [] h = refl
rstrip_digits-IsDigit (c ∷ s) h = rw (rstrip_digits-IsDigit s h.1, rstrip_digits) (ground arith)

rstrip_digits-append :
    (prefix s : Text) → All IsDigit s → rstrip_digits (prefix ++ s) ≡ rstrip_digits prefix
unfolding rstrip_digits
rstrip_digits-append [] s h = rstrip_digits-IsDigit s h
rstrip_digits-append (c ∷ prefix) s h = rw (rstrip_digits-append prefix s h, rstrip_digits) refl

replicate-snoc : (k : ℕ) → replicate {A = ℕ} k b'0' ++ b'0' ∷ [] ≡ b'0' ∷ replicate k b'0'
replicate-snoc zero = refl
replicate-snoc (suc k) = ap (λ s. b'0' ∷ s) (replicate-snoc k)

zero_digits : (k : ℕ) → rjust (suc k) b'0' (print_ℕ 0) ≡ replicate (suc k) b'0'
unfolding print_ℕ
zero_digits k =
    let e : suc k - 1 ≡ k = omega arith in
    ap (λ n. replicate n b'0' ++ b'0' ∷ []) e ∙ replicate-snoc k

-- The call on a prefix and digits behind it.
generate-append :
    (prefix s : Text)
    → EndsPlain prefix
    → All IsDigit s
    → generate_next_internal (prefix ++ s)
      ≡ (or_raise (parse_int s) value_error >>= λ n. numbered_internal prefix (n +ℤ pos 1))
unfolding generate_next_internal
generate-append prefix s plain h =
    ap
      (λ p. or_raise (parse_int (drop (length p) (prefix ++ s))) value_error >>= λ n.
        numbered_internal p (n +ℤ pos 1))
      (rstrip_digits-append prefix s h ∙ plain)
    ∙ ap (λ t. or_raise (parse_int t) value_error >>= λ n. numbered_internal prefix (n +ℤ pos 1))
        (drop-length prefix s)

numbered_internal_lem :
    (prefix : Text) (k n : ℕ)
    → length prefix + suc k ≡ 20
    → numbered_internal prefix (pos n +ℤ pos 1)
      ≡ ok (prefix ++ rjust (suc k) b'0' (print_ℕ (suc n)))
unfolding ◌+ℤ◌ print_ℤ
numbered_internal_lem prefix k n whole =
    let more : pos n +ℤ pos 1 ≡ pos (suc n) = ground arith in
    let width : 20 - length prefix ≡ suc k = omega arith in
    let room : leb (length prefix) 20 ≡ true = ground arith in
    ap (numbered_internal prefix) more
    ∙ ap
        (λ b.
          guard b value_error >> ok (prefix ++ rjust (20 - length prefix) b'0' (print_ℕ (suc n))))
        room
    ∙ ap (λ w. ok (prefix ++ rjust w b'0' (print_ℕ (suc n)))) width

next_internal :
    (prefix : Text) (k n : ℕ)
    → EndsPlain prefix
    → length prefix + suc k ≡ 20
    → generate_next_internal (prefix ++ rjust (suc k) b'0' (print_ℕ n))
      ≡ ok (prefix ++ rjust (suc k) b'0' (print_ℕ (suc n)))
next_internal prefix k n plain whole =
    generate-append prefix (rjust (suc k) b'0' (print_ℕ n)) plain (rjust-IsDigit (suc k) n)
    ∙ ap (λ o. or_raise o value_error >>= λ m. numbered_internal prefix (m +ℤ pos 1))
        (parse_int-rjust (suc k) n)
    ∙ numbered_internal_lem prefix k n whole

-- With a prefix shorter than twenty characters that does not end in a digit, the n-th identifier that a
-- new client generates is the prefix and `n` in the digits that are left of twenty characters, for every
-- `n` that these digits can write, and takes the twenty characters of its field.
pub generate_times_lem :
    (prefix : Text) (n : ℕ)
    → rstrip_digits prefix ≡ prefix
    → length prefix < 20
    → n < 10 ^ (20 - length prefix)
    → (generate_times n (first_internal prefix)
        ≡ ok (prefix ++ rjust (20 - length prefix) b'0' (print_ℕ n)))
      × (length (prefix ++ rjust (20 - length prefix) b'0' (print_ℕ n)) ≡ 20)
unfolding generate_times
generate_times_lem prefix n plain short fits = (
  ap (λ w. generate_times n (prefix ++ replicate w b'0')) width
      ∙ counted n
      ∙ ap (λ w. ok (prefix ++ rjust w b'0' (print_ℕ n))) (sym width),
  omega (
    arith,
    length-append prefix (rjust (20 - length prefix) b'0' (print_ℕ n)),
    ap (λ w. length (rjust w b'0' (print_ℕ n))) width,
    length-zeros (19 - length prefix) n (subst (λ w. n < 10 ^ w) width fits),
  ),
)
  where
    width : 20 - length prefix ≡ suc (19 - length prefix)
    width = omega arith

    counted :
        (m : ℕ)
        → generate_times m (prefix ++ replicate (suc (19 - length prefix)) b'0')
          ≡ ok (prefix ++ rjust (suc (19 - length prefix)) b'0' (print_ℕ m))
    counted zero = ap (λ s. ok (prefix ++ s)) (sym (zero_digits (19 - length prefix)))
    counted (suc m) =
        ap (λ r. r >>= generate_next_internal) (counted m)
        ∙ next_internal prefix (19 - length prefix) m plain (omega arith)

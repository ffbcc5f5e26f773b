-- ===== src/Py/Decimal.antt =====
-- `str(n)`, `int(s)` and the widths of the format strings, in base ten.
pub mod Width
use auto_test_poc.Base.{
  ℕ, zero, suc, ◌+◌, ◌-◌, ◌*◌, ◌/◌, ◌%◌, ◌<◌, ◌≤◌, ◌≡◌, ◌≢◌, ◌⊎◌, refl, sym, ap, ◌∙◌, Bool, true,
  false, ◌&&◌, ◌||◌, [], ◌∷◌, ◌++◌, Option, none, some, ltb, leb, ◌==◌, if◌then◌else◌, arith,
  length, length-append, length-replicate, replicate, All, All-append, Bool-cases, inl, inr,
}
use auto_test_poc.Base.Int.{ℤ, pos, negsuc}
use auto_test_poc.Py.Text.{Text, Lacks, codes}

-- The digits of `n`, the leading one first; `digits_enough` shows that a fuel above `n` is enough.
digits : ℕ → ℕ → Text
digits zero n = []
digits (suc f) n =
    let rest = digits f (n / 10) ++ (b'0' + n % 10) ∷ [] in
    if ltb n 10 then (b'0' + n) ∷ [] else rest

-- `str(n)`
unfoldable pub print_ℕ : ℕ → Text
unfolding digits
print_ℕ n = digits (suc n) n

-- `str(n)`, signed
unfoldable pub print_ℤ : ℤ → Text
print_ℤ (pos n) = print_ℕ n
print_ℤ (negsuc n) = b'-' ∷ print_ℕ (suc n)

-- `s.rjust(w, pad)`, and so `f"{n:5d}"` and `f"{n:03d}"`: nothing is cut.
abbrev pub rjust : ℕ → ℕ → Text → Text
rjust w pad s = replicate (w - length s) pad ++ s

-- `s.ljust(w, pad)`
abbrev pub ljust : ℕ → ℕ → Text → Text
ljust w pad s = s ++ replicate (w - length s) pad

abbrev pub is_digit : ℕ → Bool
is_digit c = leb b'0' c && leb c b'9'

-- The digits of an `int` literal: one `_` may stand between two digits.
read_digits : Bool → ℕ → Text → Option ℕ
read_digits after acc [] = if after then some acc else none
read_digits after acc (c ∷ s) =
    let digit = read_digits true (acc * 10 + (c - b'0')) s in
    let skip = read_digits false acc s in
    if is_digit c then digit else if after && c == b'_' then skip else none

abbrev is_space : ℕ → Bool
is_space c = c == 32 || (leb 9 c && leb c 13) || (leb 28 c && leb c 31)

strip_left : Text → Text
strip_left [] = []
strip_left (c ∷ s) = let rest = strip_left s in if is_space c then rest else c ∷ s

strip_right : Text → Text
strip_right [] = []
strip_right (c ∷ s) =
    let rest = strip_right s in
    elim rest [ [] ↦ if is_space c then [] else c ∷ [] | d ∷ t ↦ c ∷ d ∷ t ]

negate : ℕ → ℤ
negate zero = pos 0
negate (suc n) = negsuc n

signed : Text → Option ℤ
unfolding read_digits negate
signed [] = none
signed (c ∷ s) =
    if c == b'-'
    then elim (read_digits false 0 s) [ none ↦ none | some n ↦ some (negate n) ]
    else if c == b'+'
    then elim (read_digits false 0 s) [ none ↦ none | some n ↦ some (pos n) ]
    else elim (read_digits false 0 (c ∷ s)) [ none ↦ none | some n ↦ some (pos n) ]

-- `int(s)` on an ASCII text; `none` stands for the `ValueError`.
unfoldable pub parse_int : Text → Option ℤ
unfolding signed strip_left strip_right
parse_int s = signed (strip_left (strip_right s))

abbrev pub IsDigit : ℕ → Type 0
IsDigit c = (b'0' ≤ c) × (c ≤ b'9')

digits_enough : (f g n : ℕ) → n < f → n < g → digits f n ≡ digits g n
unfolding digits
digits_enough zero g n h k = elim h [ ]
digits_enough (suc f) zero n h k = elim k [ ]
digits_enough (suc f) (suc g) n h k = ground (arith, digits_enough f g (n / 10))

digits-IsDigit : (f n : ℕ) → All IsDigit (digits f n)
unfolding digits
digits-IsDigit zero n = tt
digits-IsDigit (suc f) n = elim (Bool-cases (ltb n 10)) [
  | inl small ↦ rw small (ground arith)
  | inr large ↦
      rw large (All-append IsDigit (digits f (n / 10)) _ (digits-IsDigit f (n / 10)) (ground arith))
]

pub print_ℕ-IsDigit : (n : ℕ) → All IsDigit (print_ℕ n)
unfolding print_ℕ
print_ℕ-IsDigit n = digits-IsDigit (suc n) n

append-ne-nil_right : (xs ys : Text) → ys ≢ [] → xs ++ ys ≢ []
append-ne-nil_right [] ys h = h
append-ne-nil_right (x ∷ xs) ys h = cc

digits-ne-nil : (f n : ℕ) → n < f → digits f n ≢ []
unfolding digits
digits-ne-nil zero n h = elim h [ ]
digits-ne-nil (suc f) n h = elim (Bool-cases (ltb n 10)) [
  | inl small ↦ rw small (cc)
  | inr large ↦ rw large (append-ne-nil_right (digits f (n / 10)) _ (cc))
]

-- The number that digits spell behind `acc`.
abbrev pub value : ℕ → Text → ℕ
value acc [] = acc
value acc (c ∷ s) = value (acc * 10 + (c - b'0')) s

value-append : (acc d : ℕ) (s : Text) → value acc (s ++ d ∷ []) ≡ value acc s * 10 + (d - b'0')
value-append acc d [] = refl
value-append acc d (c ∷ s) = value-append (acc * 10 + (c - b'0')) d s

value-digits : (f n : ℕ) → n < f → value 0 (digits f n) ≡ n
unfolding digits
value-digits zero n h = elim h [ ]
value-digits (suc f) n h = elim (Bool-cases (ltb n 10)) [
  | inl small ↦ rw small (ground arith)
  | inr large ↦
      rw large (
        ground (arith, value-append 0 (b'0' + n % 10) (digits f (n / 10)), value-digits f (n / 10)))
]

read_digits-value :
    (acc : ℕ) (s : Text) → All IsDigit s → read_digits true acc s ≡ some (value acc s)
unfolding read_digits
read_digits-value acc [] h = refl
read_digits-value acc (c ∷ s) h = ground (arith, read_digits-value (acc * 10 + (c - b'0')) s h.1)

read_digits-start : (s : Text) → s ≢ [] → All IsDigit s → read_digits false 0 s ≡ some (value 0 s)
unfolding read_digits
read_digits-start [] n h = absurd (n refl)
read_digits-start (c ∷ s) n h = ground (arith, read_digits-value (0 * 10 + (c - b'0')) s h.1)

strip_right-IsDigit : (s : Text) → All IsDigit s → strip_right s ≡ s
unfolding strip_right
strip_right-IsDigit [] h = refl
strip_right-IsDigit (c ∷ s) h = rw (strip_right-IsDigit s h.1) (last s h.0)
  where
    last :
        {c : ℕ} (s : Text)
        → IsDigit c
        → ◌≡◌ {A = Text}
            (elim s [ [] ↦ if is_space c then [] else c ∷ [] | d ∷ t ↦ c ∷ d ∷ t ])
            (c ∷ s)
    last [] h = ground arith
    last (d ∷ t) h = refl

strip_left-IsDigit : (s : Text) → All IsDigit s → strip_left s ≡ s
unfolding strip_left
strip_left-IsDigit [] h = refl
strip_left-IsDigit (c ∷ s) h = ground arith

signed-IsDigit : (s : Text) → s ≢ [] → All IsDigit s → signed s ≡ some (pos (value 0 s))
unfolding signed
signed-IsDigit [] n h = absurd (n refl)
signed-IsDigit (c ∷ s) n h = ground (arith, read_digits-start (c ∷ s) n h)

-- Reading any digits gives the number that they spell.
pub parse_int-IsDigit : (s : Text) → s ≢ [] → All IsDigit s → parse_int s ≡ some (pos (value 0 s))
unfolding parse_int
parse_int-IsDigit s n h =
    rw (strip_right-IsDigit s h, strip_left-IsDigit s h) (signed-IsDigit s n h)

-- A number that is printed is read back.
pub parse_int-print_ℕ : (n : ℕ) → parse_int (print_ℕ n) ≡ some (pos n)
unfolding print_ℕ
parse_int-print_ℕ n =
    parse_int-IsDigit _ (digits-ne-nil (suc n) n (omega arith)) (digits-IsDigit (suc n) n)
    ∙ ap (λ m. some (pos m)) (value-digits (suc n) n (omega arith))

-- Distinct numbers print differently.
pub print_ℕ-injective : (n m : ℕ) → print_ℕ n ≡ print_ℕ m → n ≡ m
print_ℕ-injective n m e =
    let same : some (pos n) ≡ some (pos m) =
      sym (parse_int-print_ℕ n) ∙ ap parse_int e ∙ parse_int-print_ℕ m in
    ground arith

-- A printed number holds no character outside the digits.
pub print_ℕ-Lacks : (c n : ℕ) → (c < b'0') ⊎ (b'9' < c) → Lacks c (print_ℕ n)
print_ℕ-Lacks c n h = go (print_ℕ n) (print_ℕ-IsDigit n)
  where
    go : (s : Text) → All IsDigit s → Lacks c s
    go [] d = tt
    go (x ∷ s) d = (omega arith, go s d.1)

one_digit : (f n : ℕ) → n < 10 → length (digits f n) ≤ 1
unfolding digits
one_digit zero n h = omega arith
one_digit (suc f) n h = ground arith

two_digits : (f n : ℕ) → n < 100 → length (digits f n) ≤ 2
unfolding digits
two_digits zero n h = omega arith
two_digits (suc f) n h =
    ground (arith, one_digit f (n / 10), length-append (digits f (n / 10)) ((b'0' + n % 10) ∷ []))

three_digits : (f n : ℕ) → n < 1000 → length (digits f n) ≤ 3
unfolding digits
three_digits zero n h = omega arith
three_digits (suc f) n h =
    ground (arith, two_digits f (n / 10), length-append (digits f (n / 10)) ((b'0' + n % 10) ∷ []))

pub length-print_ℕ_three : (n : ℕ) → n < 1000 → length (print_ℕ n) ≤ 3
unfolding print_ℕ
length-print_ℕ_three n h = three_digits (suc n) n h

-- A text that fits is padded to the width.
pub length-rjust : (w pad : ℕ) (s : Text) → length s ≤ w → length (rjust w pad s) ≡ w
length-rjust w pad s h =
    omega
      (arith, length-append (replicate (w - length s) pad) s, length-replicate (w - length s) pad)

value-zeros : (k : ℕ) (s : Text) → value 0 (replicate k b'0' ++ s) ≡ value 0 s
value-zeros zero s = refl
value-zeros (suc k) s = value-zeros k s

zeros-IsDigit : (k : ℕ) → All IsDigit (replicate k b'0')
zeros-IsDigit zero = tt
zeros-IsDigit (suc k) = (omega arith, zeros-IsDigit k)

-- Padding with zeros does not change the number that is read.
pub parse_int-rjust : (w n : ℕ) → parse_int (rjust w b'0' (print_ℕ n)) ≡ some (pos n)
unfolding print_ℕ
parse_int-rjust w n =
    let s = digits (suc n) n in
    parse_int-IsDigit _
      (append-ne-nil_right (replicate (w - length s) b'0') s
        (digits-ne-nil (suc n) n (omega arith)))
      (All-append IsDigit (replicate (w - length s) b'0') s (zeros-IsDigit _)
        (digits-IsDigit (suc n) n))
    ∙ ap (λ m. some (pos m)) (value-zeros (w - length s) s ∙ value-digits (suc n) n (omega arith))

print_runs : (print_ℕ 1205 ≡ codes "1205") × (parse_int (codes " -1_0 ") ≡ some (negsuc 9))
unfolding print_ℕ parse_int
print_runs = (refl, refl)

-- ===== src/Ahd/Calendar/Parts.antt =====
-- The texts of times, part by part.
use auto_test_poc.Base.{
  ℕ, zero, suc, ◌+◌, ◌-◌, ◌*◌, ◌/◌, ◌≤◌, ◌<◌, ◌≡◌, refl, sym, ap, ◌∙◌, true, false, [], ◌∷◌, ◌++◌,
  none, some, if◌then◌else◌, arith, length, take, drop, replicate, All, All-append, length-append,
  length-drop, take-append-drop, take-length, drop-length, append-nil,
}
use auto_test_poc.Py.Exceptions.{ok, ◌>>=◌}
use auto_test_poc.Py.Text.{Text, text_eq, codes}
use auto_test_poc.Py.Decimal.{value, IsDigit}
use auto_test_poc.Py.Decimal.Width.{value-rjust, rjust-IsDigit, length-zeros}
use auto_test_poc.Codec.Messages.{IsAscii}
use auto_test_poc.Padded.{to_ascii}
use auto_test_poc.Padded.RoundTrip.{to_ascii-IsAscii}
use auto_test_poc.Ahd.Fields.{slice}
use auto_test_poc.Ahd.PostBuild.Slices.{slice-append_right}
use auto_test_poc.Ahd.Calendar.{zero_filled, all_digits, strptime_time, found}

pub all_digits-IsDigit : (s : Text) → All IsDigit s → all_digits s ≡ true
all_digits-IsDigit [] h = refl
all_digits-IsDigit (c ∷ s) h = ground (arith, all_digits-IsDigit s h.1)

pub IsDigit-IsAscii : (s : Text) → All IsDigit s → IsAscii s
IsDigit-IsAscii [] h = tt
IsDigit-IsAscii (c ∷ s) h = (omega arith, IsDigit-IsAscii s h.1)

-- The part that a text in the middle takes.
slice-middle : (a b c : Text) → slice (length a) (length b) (a ++ (b ++ c)) ≡ b
slice-middle a b c = ap (take (length b)) (drop-length a (b ++ c)) ∙ take-length b c

pub slice_at :
    (start width : ℕ) (a b c : Text)
    → length a ≡ start
    → length b ≡ width
    → slice start width (a ++ (b ++ c)) ≡ b
slice_at start width a b c ha hb =
    ap (λ n. slice n width (a ++ (b ++ c))) (sym ha)
    ∙ ap (λ n. slice (length a) n (a ++ (b ++ c))) (sym hb)
    ∙ slice-middle a b c

pub digits-spaces :
    (s : Text) (n k : ℕ) → All IsDigit s → length s ≡ suc n → text_eq s (replicate k 32) ≡ false
digits-spaces [] n k h e = absurd (omega arith)
digits-spaces (c ∷ s) n zero h e = refl
digits-spaces (c ∷ s) n (suc k) h e = ground arith

-- The text of a time with six further digits.
module _ (h m s : ℕ) (u : Text) (hour : h < 24) (minute : m < 60) (second : s < 60)
    (six : length u ≡ 6) (digits : All IsDigit u) where
  abbrev pub h2 : Text
  h2 = zero_filled 2 h

  abbrev pub m2 : Text
  m2 = zero_filled 2 m

  abbrev pub s2 : Text
  s2 = zero_filled 2 s

  abbrev pub twelve : Text
  twelve = h2 ++ (m2 ++ (s2 ++ u))

  lengths : (length h2 ≡ 2) × (length m2 ≡ 2) × (length s2 ≡ 2)
  lengths = (
    length-zeros 1 h (omega arith),
    length-zeros 1 m (omega arith),
    length-zeros 1 s (omega arith),
  )

  pub twelve-IsDigit : All IsDigit twelve
  twelve-IsDigit = All-append IsDigit h2 _ (rjust-IsDigit 2 h) (
      All-append IsDigit m2 _ (rjust-IsDigit 2 m)
        (All-append IsDigit s2 u (rjust-IsDigit 2 s) digits))

  pub length-twelve : length twelve ≡ 12
  length-twelve = omega (
    arith,
    lengths,
    six,
    length-append h2 (m2 ++ (s2 ++ u)),
    length-append m2 (s2 ++ u),
    length-append s2 u,
  )

  at_hour : slice 0 2 twelve ≡ h2
  at_hour = slice_at 0 2 [] h2 (m2 ++ (s2 ++ u)) refl lengths.0

  at_minute : slice 2 2 twelve ≡ m2
  at_minute = slice_at 2 2 h2 m2 (s2 ++ u) lengths.0 lengths.1

  at_second : slice 4 2 twelve ≡ s2
  at_second =
      slice-append_right 4 2 h2 (m2 ++ (s2 ++ u)) (omega (arith, lengths))
      ∙ ap (λ n. slice (4 - n) 2 (m2 ++ (s2 ++ u))) lengths.0
      ∙ slice_at 2 2 m2 s2 u lengths.1 lengths.2

  at_micro : slice 6 6 twelve ≡ u
  at_micro =
      slice-append_right 6 6 h2 (m2 ++ (s2 ++ u)) (omega (arith, lengths))
      ∙ ap (λ n. slice (6 - n) 6 (m2 ++ (s2 ++ u))) lengths.0
      ∙ slice-append_right 4 6 m2 (s2 ++ u) (omega (arith, lengths))
      ∙ ap (λ n. slice (4 - n) 6 (s2 ++ u)) lengths.1
      ∙ ap (λ r. slice 2 6 (s2 ++ r)) (sym (append-nil u))
      ∙ slice_at 2 6 s2 u [] lengths.2 six

  pub strptime-twelve :
      strptime_time twelve
      ≡ some (record { hour = h; minute = m; second = s; microsecond = value 0 u })
  unfolding strptime_time
  strptime-twelve =
      rw
        (
          length-twelve,
          all_digits-IsDigit twelve twelve-IsDigit,
          at_hour,
          at_minute,
          at_second,
          at_micro,
          value-rjust 2 h,
          value-rjust 2 m,
          value-rjust 2 s,
        )
        (ground arith)

  pub read-twelve :
      (to_ascii twelve >>= λ x.
      if text_eq x (replicate 12 32) then ok none else found (strptime_time x))
      ≡ ok (some (record { hour = h; minute = m; second = s; microsecond = value 0 u }))
  read-twelve =
      rw
        (
          to_ascii-IsAscii twelve (IsDigit-IsAscii twelve twelve-IsDigit),
          digits-spaces twelve 11 12 twelve-IsDigit length-twelve,
          strptime-twelve,
        )
        refl

value-append : (acc : ℕ) (a b : Text) → value acc (a ++ b) ≡ value (value acc a) b
value-append acc [] b = refl
value-append acc (c ∷ a) b = value-append (acc * 10 + (c - b'0')) a b

-- Three more digits.
thousand :
    (acc : ℕ) (b : Text)
    → All IsDigit b
    → length b ≡ 3
    → (acc * 1000 ≤ value acc b) × (value acc b < acc * 1000 + 1000)
thousand acc [] h e = absurd (omega arith)
thousand acc (x ∷ []) h e = absurd (omega arith)
thousand acc (x ∷ y ∷ []) h e = absurd (omega arith)
thousand acc (x ∷ y ∷ z ∷ []) h e = omega arith
thousand acc (x ∷ y ∷ z ∷ w ∷ b) h e = absurd (omega arith)

pub All-take : (n : ℕ) (s : Text) → All IsDigit s → All IsDigit (take n s)
All-take zero s h = tt
All-take (suc n) [] h = tt
All-take (suc n) (c ∷ s) h = (h.0, All-take n s h.1)

All-drop : (n : ℕ) (s : Text) → All IsDigit s → All IsDigit (drop n s)
All-drop zero s h = h
All-drop (suc n) [] h = tt
All-drop (suc n) (c ∷ s) h = All-drop n s h.1

-- The first three of six digits spell the thousands.
pub value-thousands :
    (n : ℕ) → n < 1000000 → value 0 (take 3 (zero_filled 6 n) ++ codes "000") ≡ n / 1000 * 1000
value-thousands n h =
    let u = zero_filled 6 n in
    let parts : value (value 0 (take 3 u)) (drop 3 u) ≡ n =
      sym (value-append 0 (take 3 u) (drop 3 u))
      ∙ ap (value 0) (take-append-drop 3 u)
      ∙ value-rjust 6 n in
    omega (
      arith,
      value-append 0 (take 3 u) (codes "000"),
      parts,
      thousand (value 0 (take 3 u)) (drop 3 u) (All-drop 3 u (rjust-IsDigit 6 n))
          (omega (arith, length-drop 3 u, length-zeros 5 n h)),
    )

pub take-append_right :
    (n : ℕ) (a b : Text) → length a ≤ n → take n (a ++ b) ≡ a ++ take (n - length a) b
take-append_right n [] b h = ap (λ k. take k b) (omega arith)
take-append_right zero (c ∷ a) b h = absurd (omega arith)
take-append_right (suc n) (c ∷ a) b h =
    ap (λ r. c ∷ r) (take-append_right n a b (omega arith) ∙ ap (λ k. a ++ take k b) (omega arith))

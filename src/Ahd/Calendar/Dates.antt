-- ===== src/Ahd/Calendar/Dates.antt =====
-- Dates are read back from their fields.
use auto_test_poc.Base.{
  ◌-◌, ◌≤◌, ◌<◌, ◌≡◌, refl, sym, ap, ◌∙◌, true, if◌then◌else◌, [], ◌∷◌, ◌++◌, none, some, arith,
  length, take, All-append, All, length-append, append-nil,
}
use auto_test_poc.Py.Exceptions.{ok, ◌>>=◌}
use auto_test_poc.Py.Text.{Text}
use auto_test_poc.Py.Decimal.{IsDigit}
use auto_test_poc.Py.Decimal.Width.{value-rjust, rjust-IsDigit, length-zeros}
use auto_test_poc.Padded.RoundTrip.{to_ascii-IsAscii}
use auto_test_poc.Ahd.Fields.{slice}
use auto_test_poc.Ahd.PostBuild.Slices.{slice-append_right}
use auto_test_poc.Ahd.Calendar.{
  Date, zero_filled, date_text, day_digits, is_date, strptime_date, date_i2m, date_m2i,
}
use auto_test_poc.Ahd.Calendar.Parts.{
  all_digits-IsDigit, IsDigit-IsAscii, digits-spaces, slice_at, All-take,
}

day_digits-IsDigit : (s : Text) → All IsDigit s → day_digits s ≡ s
day_digits-IsDigit [] h = refl
day_digits-IsDigit (c ∷ s) h = ground arith

module _ (d : Date) (valid : is_date d ≡ true) (short : d.year < 10000) where
  abbrev y4 : Text
  y4 = zero_filled 4 d.year

  abbrev m2 : Text
  m2 = zero_filled 2 d.month

  abbrev d2 : Text
  d2 = zero_filled 2 d.day

  two_digits : (d.month < 100) × (d.day < 100)
  two_digits = ground arith

  lengths : (length y4 ≡ 4) × (length m2 ≡ 2) × (length d2 ≡ 2)
  lengths = (
    length-zeros 3 d.year short,
    length-zeros 1 d.month two_digits.0,
    length-zeros 1 d.day two_digits.1,
  )

  text-IsDigit : All IsDigit (date_text d)
  text-IsDigit =
      All-append IsDigit y4 _ (rjust-IsDigit 4 d.year)
        (All-append IsDigit m2 d2 (rjust-IsDigit 2 d.month) (rjust-IsDigit 2 d.day))

  text-length : length (date_text d) ≡ 8
  text-length = omega (arith, lengths, length-append y4 (m2 ++ d2), length-append m2 d2)

  at_year : slice 0 4 (date_text d) ≡ y4
  at_year = slice_at 0 4 [] y4 (m2 ++ d2) refl lengths.0

  at_month : slice 4 2 (date_text d) ≡ m2
  at_month = slice_at 4 2 y4 m2 d2 lengths.0 lengths.1

  at_day : slice 6 2 (date_text d) ≡ d2
  at_day =
      slice-append_right 6 2 y4 (m2 ++ d2) (omega (arith, lengths))
      ∙ ap (λ n. slice (6 - n) 2 (m2 ++ d2)) lengths.0
      ∙ ap (λ r. slice 2 2 (m2 ++ r)) (sym (append-nil d2))
      ∙ slice_at 2 2 m2 d2 [] lengths.1 lengths.2

  strptime-date_text : strptime_date (date_text d) ≡ some d
  unfolding strptime_date
  strptime-date_text =
      rw
        (
          text-length,
          all_digits-IsDigit (take 6 (date_text d)) (All-take 6 (date_text d) text-IsDigit),
          at_year,
          at_month,
          at_day,
          day_digits-IsDigit d2 (rjust-IsDigit 2 d.day),
          all_digits-IsDigit d2 (rjust-IsDigit 2 d.day),
          value-rjust 4 d.year,
          value-rjust 2 d.month,
          value-rjust 2 d.day,
        )
        (ap (λ b. if b then some d else none) valid)

-- A date with a year of four digits is read back from its field, and no date as none.
pub date_m2i-date_i2m :
    (d : Date)
    → is_date d ≡ true
    → 1000 ≤ d.year
    → d.year < 10000
    → ((date_i2m (some d) >>= date_m2i) ≡ ok (some d)) × ((date_i2m none >>= date_m2i) ≡ ok none)
unfolding date_i2m date_m2i
date_m2i-date_i2m d valid long short = (
  rw
      (
        to_ascii-IsAscii (date_text d) (IsDigit-IsAscii _ (text-IsDigit d valid short)),
        to_ascii-IsAscii (date_text d) (IsDigit-IsAscii _ (text-IsDigit d valid short)),
        digits-spaces (date_text d) 7 8 (text-IsDigit d valid short) (text-length d valid short),
        strptime-date_text d valid short,
      )
      refl,
  refl,
)

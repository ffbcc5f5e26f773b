-- ===== src/Ahd/Calendar/Times.antt =====
-- Times are read back from their fields, in one of nine characters to the millisecond.
use auto_test_poc.Base.{
  ◌-◌, ◌*◌, ◌/◌, ◌<◌, ◌≡◌, refl, ap, ◌∙◌, ◌++◌, none, some, arith, length, take, append_assoc, All,
  All-append, length-append, length-take,
}
use auto_test_poc.Py.Exceptions.{ok, ◌>>=◌}
use auto_test_poc.Py.Text.{Text, codes}
use auto_test_poc.Py.Decimal.{IsDigit}
use auto_test_poc.Py.Decimal.Width.{value-rjust, rjust-IsDigit, length-zeros}
use auto_test_poc.Padded.RoundTrip.{to_ascii-IsAscii}
use auto_test_poc.Ahd.Calendar.{
  Time, zero_filled, time_text, time12_i2m, time12_m2i, time9_i2m, time9_m2i,
}
use auto_test_poc.Ahd.Calendar.Parts.{
  IsDigit-IsAscii, digits-spaces, strptime-twelve, read-twelve, take-append_right, value-thousands,
  All-take, twelve-IsDigit, length-twelve,
}

module _ (t : Time) (hour : t.hour < 24) (minute : t.minute < 60) (second : t.second < 60)
    (micro : t.microsecond < 1000000) where
  abbrev u6 : Text
  u6 = zero_filled 6 t.microsecond

  u6-length : length u6 ≡ 6
  u6-length = length-zeros 5 t.microsecond micro

  u6-IsDigit : All IsDigit u6
  u6-IsDigit = rjust-IsDigit 6 t.microsecond

  text-IsDigit : All IsDigit (time_text t)
  text-IsDigit = twelve-IsDigit t.hour t.minute t.second u6 hour minute second u6-length u6-IsDigit

  text-length : length (time_text t) ≡ 12
  text-length = length-twelve t.hour t.minute t.second u6 hour minute second u6-length u6-IsDigit

  time12_read : (time12_i2m (some t) >>= time12_m2i) ≡ ok (some t)
  unfolding time12_i2m time12_m2i
  time12_read = rw (to_ascii-IsAscii (time_text t) (IsDigit-IsAscii (time_text t) text-IsDigit)) (
      read-twelve t.hour t.minute t.second u6 hour minute second u6-length u6-IsDigit
      ∙ ap (λ n. ok (some (record t { microsecond = n }))) (value-rjust 6 t.microsecond))

  abbrev h2 : Text
  h2 = zero_filled 2 t.hour

  abbrev m2 : Text
  m2 = zero_filled 2 t.minute

  abbrev s2 : Text
  s2 = zero_filled 2 t.second

  nine_parts : take 9 (time_text t) ≡ h2 ++ (m2 ++ (s2 ++ take 3 u6))
  nine_parts =
      let hl : length h2 ≡ 2 = length-zeros 1 t.hour (omega arith) in
      let ml : length m2 ≡ 2 = length-zeros 1 t.minute (omega arith) in
      let sl : length s2 ≡ 2 = length-zeros 1 t.second (omega arith) in
      take-append_right 9 h2 (m2 ++ (s2 ++ u6)) (omega arith)
      ∙ ap (λ n. h2 ++ take (9 - n) (m2 ++ (s2 ++ u6))) hl
      ∙ ap (λ r. h2 ++ r)
          (take-append_right 7 m2 (s2 ++ u6) (omega arith)
            ∙ ap (λ n. m2 ++ take (7 - n) (s2 ++ u6)) ml
            ∙ ap (λ r. m2 ++ r)
                (take-append_right 5 s2 u6 (omega arith) ∙ ap (λ n. s2 ++ take (5 - n) u6) sl))

  -- The nine characters and three zeros are the text of a time.
  nine : take 9 (time_text t) ++ codes "000" ≡ h2 ++ (m2 ++ (s2 ++ (take 3 u6 ++ codes "000")))
  nine =
      ap (λ r. r ++ codes "000") nine_parts
      ∙ append_assoc h2 (m2 ++ (s2 ++ take 3 u6)) (codes "000")
      ∙ ap (λ r. h2 ++ r)
          (append_assoc m2 (s2 ++ take 3 u6) (codes "000")
            ∙ ap (λ r. m2 ++ r) (append_assoc s2 (take 3 u6) (codes "000")))

  thousands-length : length (take 3 u6 ++ codes "000") ≡ 6
  thousands-length =
      omega (arith, length-append (take 3 u6) (codes "000"), length-take 3 u6, u6-length)

  thousands-IsDigit : All IsDigit (take 3 u6 ++ codes "000")
  thousands-IsDigit =
      All-append IsDigit (take 3 u6) (codes "000") (All-take 3 u6 u6-IsDigit) (omega arith)

  time9_read :
      (time9_i2m (some t) >>= time9_m2i)
      ≡ ok (some (record t { microsecond = t.microsecond / 1000 * 1000 }))
  unfolding time9_i2m time9_m2i
  time9_read =
      rw
        (
          to_ascii-IsAscii (take 9 (time_text t))
              (IsDigit-IsAscii _ (All-take 9 (time_text t) text-IsDigit)),
          to_ascii-IsAscii (take 9 (time_text t))
              (IsDigit-IsAscii _ (All-take 9 (time_text t) text-IsDigit)),
          digits-spaces (take 9 (time_text t)) 8 9 (All-take 9 (time_text t) text-IsDigit)
              (omega (arith, length-take 9 (time_text t), text-length)),
          nine,
          strptime-twelve t.hour t.minute t.second (take 3 u6 ++ codes "000") hour minute second
              thousands-length thousands-IsDigit,
          value-thousands t.microsecond micro,
        )
        refl

-- A time is read back from its field of twelve characters, and from its field of nine with the
-- microseconds below a millisecond cut off; no time is read back as none from both.
pub time_m2i-time_i2m :
    (t : Time)
    → t.hour < 24
    → t.minute < 60
    → t.second < 60
    → t.microsecond < 1000000
    → ((time12_i2m (some t) >>= time12_m2i) ≡ ok (some t))
      × ((time9_i2m (some t) >>= time9_m2i)
          ≡ ok (some (record t { microsecond = t.microsecond / 1000 * 1000 })))
      × ((time12_i2m none >>= time12_m2i) ≡ ok none)
      × ((time9_i2m none >>= time9_m2i) ≡ ok none)
unfolding time12_i2m time12_m2i time9_i2m time9_m2i
time_m2i-time_i2m t h m s u = (time12_read t h m s u, time9_read t h m s u, refl, refl)

-- ===== src/Ahd/Calendar.antt =====
-- The fields of dates and times of common/ahd_msg.py.
pub mod Parts
pub mod Times
pub mod Dates
use auto_test_poc.Base.{
  ℕ, ◌+◌, ◌*◌, ◌/◌, ◌%◌, Bool, true, false, ◌&&◌, ◌||◌, not, List, [], ◌∷◌, ◌++◌, Option, none,
  some, if◌then◌else◌, ltb, leb, ◌==◌, length, replicate, take,
}
use auto_test_poc.Py.Exceptions.{Result, ok, value_error, ◌>>=◌, or_raise}
use auto_test_poc.Py.Text.{Text, text_eq, codes}
use auto_test_poc.Py.Decimal.{print_ℕ, rjust, is_digit, value}
use auto_test_poc.Padded.{to_ascii}
use auto_test_poc.Ahd.Fields.{slice}

-- `datetime.date` and `datetime.time`
pub record Date : Type 0 where
  pub year : ℕ
  pub month : ℕ
  pub day : ℕ

pub record Time : Type 0 where
  pub hour : ℕ
  pub minute : ℕ
  pub second : ℕ
  pub microsecond : ℕ

-- A number in the digits of `strftime`.
abbrev pub zero_filled : ℕ → ℕ → Text
zero_filled w n = rjust w b'0' (print_ℕ n)

-- `x.strftime("%Y%m%d")` and `x.strftime("%H%M%S%f")`
abbrev pub date_text : Date → Text
date_text d = zero_filled 4 d.year ++ (zero_filled 2 d.month ++ zero_filled 2 d.day)

abbrev pub time_text : Time → Text
time_text t =
    zero_filled 2 t.hour
    ++ (zero_filled 2 t.minute ++ (zero_filled 2 t.second ++ zero_filled 6 t.microsecond))

abbrev pub all_digits : Text → Bool
all_digits [] = true
all_digits (c ∷ s) = is_digit c && all_digits s

abbrev pub is_leap : ℕ → Bool
is_leap y = (y % 4 == 0) && (not (y % 100 == 0) || (y % 400 == 0))

-- The last day of a month: the long months are the odd ones up to July, and the even ones from August.
abbrev pub last_day : ℕ → ℕ → ℕ
last_day year month =
    if month == 2 then 28 + (if is_leap year then 1 else 0) else 30 + (month + month / 8) % 2

-- The ranges that the constructors of `datetime` accept.
abbrev pub is_date : Date → Bool
is_date d =
    leb 1 d.year
    && leb 1 d.month
    && leb d.month 12
    && leb 1 d.day
    && leb d.day (last_day d.year d.month)

abbrev pub is_time : Time → Bool
is_time t = ltb t.hour 24 && ltb t.minute 60 && ltb t.second 60

-- The day may have a space in place of its first digit.
abbrev pub day_digits : Text → Text
day_digits [] = []
day_digits (c ∷ s) = if c == 32 then b'0' ∷ s else c ∷ s

-- `strptime(s, "%Y%m%d")` and `strptime(s, "%H%M%S%f")` on a text of eight and of twelve characters,
-- where each part takes all the digits that it may have.
abbrev pub checked_date : Date → Option Date
checked_date d = if is_date d then some d else none

unfoldable pub strptime_date : Text → Option Date
strptime_date s =
    let day = day_digits (slice 6 2 s) in
    if (length s == 8) && all_digits (take 6 s) && all_digits day
    then checked_date
        (record { year = value 0 (slice 0 4 s); month = value 0 (slice 4 2 s); day = value 0 day })
    else none

abbrev pub checked_time : Time → Option Time
checked_time t = if is_time t then some t else none

unfoldable pub strptime_time : Text → Option Time
strptime_time s =
    if (length s == 12) && all_digits s
    then checked_time (record {
      hour = value 0 (slice 0 2 s);
      minute = value 0 (slice 2 2 s);
      second = value 0 (slice 4 2 s);
      microsecond = value 0 (slice 6 6 s);
    })
    else none

abbrev pub found : {A : Type 0} → Option A → Result (Option A)
found o = or_raise o value_error >>= λ a. ok (some a)

-- What a caller may assign to a field, or the field hands on.
pub data Assigned (A : Type 0) : Type 0 where
  nothing : Assigned A
  value_of : (a : A) → Assigned A
  bytes text : (s : Text) → Assigned A

-- What `any2i` makes of a text: `blank` spaces stand for nothing, and `read` reads any other.
abbrev pub unless_blank : {A : Type 0} → ℕ → (Text → Option A) → Text → Result (Option A)
unless_blank blank read x = if text_eq x (replicate blank 32) then ok none else found (read x)

abbrev pub assigned : {A : Type 0} → (Text → Result (Option A)) → Assigned A → Result (Option A)
assigned read nothing = ok none
assigned read (value_of a) = ok (some a)
assigned read (bytes s) = to_ascii s >>= read
assigned read (text s) = read s

-- `DateField.i2m`, `DateField.any2i` and `DateField.m2i`
unfoldable pub date_i2m : Option Date → Result Text
date_i2m none = to_ascii (replicate 8 32)
date_i2m (some d) = to_ascii (date_text d)

abbrev pub date_any2i : Assigned Date → Result (Option Date)
date_any2i = assigned (unless_blank 8 strptime_date)

unfoldable pub date_m2i : Text → Result (Option Date)
unfolding strptime_date
date_m2i s = to_ascii s >>= λ x. date_any2i (text x)

-- `TimeField12.i2m`, `TimeField12.any2i` and `TimeField12.m2i`
unfoldable pub time12_i2m : Option Time → Result Text
time12_i2m none = to_ascii (replicate 12 32)
time12_i2m (some t) = to_ascii (time_text t)

abbrev pub time12_any2i : Assigned Time → Result (Option Time)
time12_any2i = assigned (unless_blank 12 strptime_time)

unfoldable pub time12_m2i : Text → Result (Option Time)
unfolding strptime_time
time12_m2i s = to_ascii s >>= λ x. time12_any2i (text x)

-- `TimeField9.i2m`, `TimeField9.any2i` and `TimeField9.m2i`
unfoldable pub time9_i2m : Option Time → Result Text
time9_i2m none = to_ascii (replicate 9 32)
time9_i2m (some t) = to_ascii (take 9 (time_text t))

abbrev pub time9_any2i : Assigned Time → Result (Option Time)
time9_any2i = assigned (unless_blank 9 (λ x. strptime_time (x ++ codes "000")))

unfoldable pub time9_m2i : Text → Result (Option Time)
unfolding strptime_time
time9_m2i s = to_ascii s >>= λ x. time9_any2i (text x)

-- ===== src/Examples/Layout.antt =====
-- Packets that are built, dates, times and prices at concrete values.
use auto_test_poc.Base.{
  ℕ, ◌+◌, ◌*◌, ◌/◌, ◌-◌, ◌≡◌, refl, none, some, arith, replicate, length, drop,
}
use auto_test_poc.Base.Int.{pos}
use auto_test_poc.Py.Exceptions.{ok, ◌>>=◌}
use auto_test_poc.Py.Text.{Text, codes}
use auto_test_poc.Py.Decimal.{value, print_ℕ}
use auto_test_poc.Padded.{int_m2i}
use auto_test_poc.Ahd.Fields.{field_bytes}
use auto_test_poc.Ahd.Packets.Esp.{esp_common_packet}
use auto_test_poc.Ahd.Packets.Admin.{admin_common_packet}
use auto_test_poc.Ahd.Packets.Orders.{order_common_packet}
use auto_test_poc.Ahd.Packets.Notices.{notice_common_packet}
use auto_test_poc.Ahd.PostBuild.{
  esp_post_build, admin_post_build, order_post_build, notice_post_build,
}
use auto_test_poc.Ahd.PostBuild.Lengths.{five_field}
use auto_test_poc.Ahd.PostBuild.Session.{esp_post_build_lem}
use auto_test_poc.Ahd.PostBuild.Operations.{IsBuilt, with_length_lem}
use auto_test_poc.Ahd.Calendar.{
  Date, Time, date_i2m, date_m2i, time12_i2m, time12_m2i, time9_i2m, time9_m2i,
}
use auto_test_poc.Ahd.Calendar.Dates.{date_m2i-date_i2m}
use auto_test_poc.Ahd.Calendar.Times.{time_m2i-time_i2m}
use auto_test_poc.Ahd.Price.{Floats, PriceField, absent, market, limit, price_i2m, price_m2i}
use auto_test_poc.Ahd.Price.RoundTrip.{price_m2i-price_i2m}

abbrev spaces : Text
spaces = replicate 72 32

abbrev hello : Text
hello = codes "hello"

esp_post_build_lem_example :
    (length (esp_post_build spaces hello) ≡ length spaces + length hello)
    × (int_m2i five_field (
          field_bytes
            (codes "MessageLength")
            esp_common_packet.fields_desc
            (esp_post_build spaces hello))
        ≡ ok (some (pos (length (esp_post_build spaces hello) - 5))))
    × (int_m2i five_field (
          field_bytes
            (codes "DataAreaLength")
            esp_common_packet.fields_desc
            (esp_post_build spaces hello))
        ≡ ok (some (pos (length hello))))
    × (drop (length spaces) (esp_post_build spaces hello) ≡ hello)
    × (field_bytes (codes "SeqNo") esp_common_packet.fields_desc (esp_post_build spaces hello)
        ≡ field_bytes (codes "SeqNo") esp_common_packet.fields_desc spaces)
esp_post_build_lem_example = esp_post_build_lem spaces hello (codes "SeqNo") refl (omega arith) refl

with_length_lem_example :
    IsBuilt
      (codes "DataLength")
      admin_common_packet.fields_desc
      (replicate 49 32)
      hello
      (admin_post_build none (replicate 49 32) hello)
    × IsBuilt
        (codes "DataLen")
        order_common_packet.fields_desc
        (replicate 42 32)
        hello
        (order_post_build none (replicate 42 32) hello)
    × IsBuilt
        (codes "DataLength")
        notice_common_packet.fields_desc
        (replicate 64 32)
        hello
        (notice_post_build (replicate 64 32) hello)
with_length_lem_example =
    with_length_lem (replicate 49 32) (replicate 42 32) (replicate 64 32) hello refl refl refl
      (omega arith)

abbrev leap_day : Date
leap_day = record { year = 2024; month = 2; day = 29 }

date_m2i-date_i2m_example :
    ((date_i2m (some leap_day) >>= date_m2i) ≡ ok (some leap_day))
    × ((date_i2m none >>= date_m2i) ≡ ok none)
date_m2i-date_i2m_example = date_m2i-date_i2m leap_day refl (omega arith) (omega arith)

abbrev noon : Time
noon = record { hour = 12; minute = 5; second = 59; microsecond = 123456 }

time_m2i-time_i2m_example :
    ((time12_i2m (some noon) >>= time12_m2i) ≡ ok (some noon))
    × ((time9_i2m (some noon) >>= time9_m2i)
        ≡ ok (some (record noon { microsecond = noon.microsecond / 1000 * 1000 })))
    × ((time12_i2m none >>= time12_m2i) ≡ ok none)
    × ((time9_i2m none >>= time9_m2i) ≡ ok none)
time_m2i-time_i2m_example =
    time_m2i-time_i2m noon (omega arith) (omega arith) (omega arith) (omega arith)

-- Fractions in place of floating point numbers, rounded to the nearest whole number.
abbrev fractions : Floats
fractions = record {
  Float = ℕ × ℕ;
  whole = λ n. (n, 1);
  of_text = λ s. some (value 0 s, 1);
  times = λ q k. (q.0 * k, q.1);
  over = λ q k. (q.0, q.1 * k);
  rounded = λ q. ok (pos ((2 * q.0 + q.1) / (2 * q.1)));
}

abbrev order_price : PriceField
order_price = record { integer_digits = 8; decimal_digits = 4 }

-- 123.4567
abbrev ticks : ℕ × ℕ
ticks = (1234567, 10000)

price_m2i-price_i2m_example :
    ((price_i2m fractions order_price (limit ticks) >>= price_m2i fractions order_price)
      ≡ ok (limit ticks))
    × ((price_i2m fractions order_price absent >>= price_m2i fractions order_price) ≡ ok absent)
    × ((price_i2m fractions order_price market >>= price_m2i fractions order_price) ≡ ok market)
unfolding print_ℕ
price_m2i-price_i2m_example =
    price_m2i-price_i2m fractions order_price 1234567 (omega arith) (omega arith) refl refl

-- ===== src/Messages/Enums/TimeInForce.antt =====
-- `TimeInForce` of common/fix_msg.py.
use auto_test_poc.Base.{◌≡◌, refl, List, [], ◌∷◌, some}
use auto_test_poc.Py.Text.{Text, codes}
use auto_test_poc.Messages.Members.{member}

pub data TimeInForce : Type 0 where
  day good_till_cancel at_the_opening immediate_or_cancel fill_or_kill good_till_crossing :
      TimeInForce
  good_till_date at_the_close : TimeInForce

abbrev pub time_in_force_value : TimeInForce → Text
time_in_force_value day = codes "0"
time_in_force_value good_till_cancel = codes "1"
time_in_force_value at_the_opening = codes "2"
time_in_force_value immediate_or_cancel = codes "3"
time_in_force_value fill_or_kill = codes "4"
time_in_force_value good_till_crossing = codes "5"
time_in_force_value good_till_date = codes "6"
time_in_force_value at_the_close = codes "7"

-- `TimeInForce` as a sequence
abbrev pub times_in_force : List TimeInForce
times_in_force =
    day ∷ good_till_cancel ∷ at_the_opening ∷ immediate_or_cancel ∷ fill_or_kill
    ∷ good_till_crossing ∷ good_till_date ∷ at_the_close ∷ []

-- No two members have the same value.
pub time_in_force_value_lem :
    (e : TimeInForce) → member time_in_force_value times_in_force (time_in_force_value e) ≡ some e
time_in_force_value_lem day = refl
time_in_force_value_lem good_till_cancel = refl
time_in_force_value_lem at_the_opening = refl
time_in_force_value_lem immediate_or_cancel = refl
time_in_force_value_lem fill_or_kill = refl
time_in_force_value_lem good_till_crossing = refl
time_in_force_value_lem good_till_date = refl
time_in_force_value_lem at_the_close = refl

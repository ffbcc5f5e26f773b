-- ===== src/Messages/Enums/MsgType.antt =====
-- `MsgType` of common/fix_msg.py.
use auto_test_poc.Base.{◌≡◌, refl, List, [], ◌∷◌, some}
use auto_test_poc.Py.Text.{Text, codes}
use auto_test_poc.Messages.Members.{member}

pub data MsgType : Type 0 where
  heartbeat test_request resend_request reject sequence_reset logout : MsgType
  logon new_order_single execution_report order_cancel_request order_cancel_replace_request
        order_cancel_reject :
      MsgType
  business_message_reject : MsgType

abbrev pub msg_type_value : MsgType → Text
msg_type_value heartbeat = codes "0"
msg_type_value test_request = codes "1"
msg_type_value resend_request = codes "2"
msg_type_value reject = codes "3"
msg_type_value sequence_reset = codes "4"
msg_type_value logout = codes "5"
msg_type_value logon = codes "A"
msg_type_value new_order_single = codes "D"
msg_type_value execution_report = codes "8"
msg_type_value order_cancel_request = codes "F"
msg_type_value order_cancel_replace_request = codes "G"
msg_type_value order_cancel_reject = codes "9"
msg_type_value business_message_reject = codes "j"

-- `MsgType` as a sequence
abbrev pub msg_types : List MsgType
msg_types =
    heartbeat ∷ test_request ∷ resend_request ∷ reject ∷ sequence_reset ∷ logout ∷ logon
    ∷ new_order_single ∷ execution_report ∷ order_cancel_request ∷ order_cancel_replace_request
    ∷ order_cancel_reject ∷ business_message_reject ∷ []

-- No two members have the same value.
pub msg_type_value_lem : (e : MsgType) → member msg_type_value msg_types (msg_type_value e) ≡ some e
msg_type_value_lem heartbeat = refl
msg_type_value_lem test_request = refl
msg_type_value_lem resend_request = refl
msg_type_value_lem reject = refl
msg_type_value_lem sequence_reset = refl
msg_type_value_lem logout = refl
msg_type_value_lem logon = refl
msg_type_value_lem new_order_single = refl
msg_type_value_lem execution_report = refl
msg_type_value_lem order_cancel_request = refl
msg_type_value_lem order_cancel_replace_request = refl
msg_type_value_lem order_cancel_reject = refl
msg_type_value_lem business_message_reject = refl

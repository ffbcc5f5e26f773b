-- ===== src/Messages/Classes/Reject.antt =====
-- `RejectMessage` of common/fix_msg.py.
use auto_test_poc.Base.{some}
use auto_test_poc.Base.Int.{ℤ}
use auto_test_poc.Py.Text.{Text}
use auto_test_poc.Py.Decimal.{print_ℤ}
use auto_test_poc.Messages.Enums.FixVersion.{FixVersion}
use auto_test_poc.Messages.Enums.MsgType.{MsgType, msg_type_value}
use auto_test_poc.Messages.Enums.Field
use auto_test_poc.Messages.Message.{FixMessage, new_message, set_field}

-- The constructor
abbrev pub reject_message : FixVersion → FixMessage
reject_message version = new_message version (some MsgType.reject)

abbrev pub set_ref_seq_num : ℤ → FixMessage → FixMessage
set_ref_seq_num seq_num = set_field Field.ref_seq_num (print_ℤ seq_num)

abbrev pub set_ref_tag_id : ℤ → FixMessage → FixMessage
set_ref_tag_id tag_id = set_field Field.ref_tag_id (print_ℤ tag_id)

abbrev pub set_ref_msg_type : MsgType → FixMessage → FixMessage
set_ref_msg_type msg_type = set_field Field.ref_msg_type (msg_type_value msg_type)

abbrev pub set_session_reject_reason : ℤ → FixMessage → FixMessage
set_session_reject_reason reason = set_field Field.session_reject_reason (print_ℤ reason)

abbrev pub set_text : Text → FixMessage → FixMessage
set_text = set_field Field.text

-- ===== src/Messages/Factory.antt =====
-- `FixMessageFactory` of common/fix_msg.py, and the classes that it makes.
use auto_test_poc.Base.{List, [], ◌∷◌, Option, none, some, if◌then◌else◌, drop}
use auto_test_poc.Py.Text.{Text, codes, starts_with, split}
use auto_test_poc.Messages.Members.{member}
use auto_test_poc.Messages.Enums.FixVersion
use auto_test_poc.Messages.Enums.MsgType.{MsgType, msg_type_value, msg_types}
use auto_test_poc.Messages.Message.{FixMessage, new_message, parse_fix_string, bar}

-- The class of a message object; `generic` is `FixMessage` itself.
pub data MessageClass : Type 0 where
  logon logout heartbeat test_request resend_request sequence_reset : MessageClass
  reject new_order_single execution_report order_cancel_request : MessageClass
  order_cancel_replace_request order_cancel_reject generic : MessageClass

-- The ladder of `from_string` over the type.
abbrev pub class_of : MsgType → MessageClass
class_of MsgType.logon = logon
class_of MsgType.logout = logout
class_of MsgType.heartbeat = heartbeat
class_of MsgType.test_request = test_request
class_of MsgType.resend_request = resend_request
class_of MsgType.sequence_reset = sequence_reset
class_of MsgType.reject = reject
class_of MsgType.new_order_single = new_order_single
class_of MsgType.execution_report = execution_report
class_of MsgType.order_cancel_request = order_cancel_request
class_of MsgType.order_cancel_replace_request = order_cancel_replace_request
class_of MsgType.order_cancel_reject = order_cancel_reject
class_of MsgType.business_message_reject = generic

-- The type that the first part `35=…` names.
abbrev pub named_type : List Text → Option MsgType
named_type [] = none
named_type (part ∷ parts) =
    let rest = named_type parts in
    if starts_with (codes "35=") part then member msg_type_value msg_types (drop 3 part) else rest

-- `from_string`. Each constructor sets the type of its class, and the generic message gets it after.
unfoldable pub from_string : Text → Option (MessageClass × FixMessage)
from_string fix_string = elim (named_type (split bar fix_string)) [
  | none ↦ none
  | some t ↦ some (class_of t, parse_fix_string fix_string (new_message FixVersion.fix44 (some t)))
]

-- ===== src/Examples/Messaging.antt =====
-- An order message that is built, sent and parsed.
use auto_test_poc.Base.{◌≡◌, ◌≢◌, refl, some, none, arith, if◌then◌else◌, ◌==◌}
use auto_test_poc.Base.Int.{ℤ, pos}
use auto_test_poc.Py.Exceptions.{ok}
use auto_test_poc.Py.Text.{Text, codes}
use auto_test_poc.Py.Sort.{first}
use auto_test_poc.Messages.Enums.FixVersion
use auto_test_poc.Messages.Enums.MsgType
use auto_test_poc.Messages.Enums.Field
use auto_test_poc.Messages.Enums.Side
use auto_test_poc.Messages.Message.{
  FixMessage, put, new_message, get_field, to_fix_string, typed_fields, parse_fix_string,
}
use auto_test_poc.Messages.Classes.NewOrderSingle.{
  new_order_single_message, set_cl_ord_id, set_side,
}
use auto_test_poc.Messages.Factory.{MessageClass, from_string}
use auto_test_poc.Messages.RoundTrip.{IsSendable, parse_fix_string-to_fix_string}
use auto_test_poc.Messages.Types.{Constructs, from_string-to_fix_string}
use auto_test_poc.Messages.Building.{new_message-IsSendable, set_field-IsSendable}

abbrev empty_order : FixMessage
empty_order = new_order_single_message FixVersion.fix44

abbrev named_order : FixMessage
named_order = set_cl_ord_id (codes "C1") empty_order

abbrev buy_order : FixMessage
buy_order = set_side Side.buy named_order

named_order-IsSendable : IsSendable named_order
named_order-IsSendable =
    (set_field-IsSendable Field.cl_ord_id (codes "C1") empty_order (omega arith) (omega arith)
      (new_message-IsSendable FixVersion.fix44 (some MsgType.new_order_single))).0

buy_order-IsSendable : IsSendable buy_order
buy_order-IsSendable =
    (set_field-IsSendable Field.side (codes "1") named_order (omega arith) (omega arith)
      named_order-IsSendable).0

typeless : first (pos 35) buy_order.fields ≡ none
unfolding new_message put
typeless = refl

typed : buy_order.msg_type ≡ some MsgType.new_order_single
unfolding new_message
typed = refl

set_field-IsSendable_example :
    IsSendable buy_order
    × (get_field Field.side buy_order ≡ some (codes "1"))
    × ((g : Field.Field)
        → get_field g buy_order ≡ (
            if Field.field_tag g == Field.field_tag Field.side
            then some (codes "1")
            else get_field g named_order))
set_field-IsSendable_example =
    set_field-IsSendable Field.side (codes "1") named_order (omega arith) (omega arith)
      named_order-IsSendable

parse_fix_string-to_fix_string_example :
    (s : Text) × (to_fix_string buy_order ≡ ok s)
    × ((k : ℤ)
        → k ≢ pos 9
        → k ≢ pos 10
        → first k (parse_fix_string s empty_order).fields ≡ first k (typed_fields buy_order))
parse_fix_string-to_fix_string_example =
    parse_fix_string-to_fix_string buy_order empty_order buy_order-IsSendable

from_string-to_fix_string_example :
    (s : Text) × (made : FixMessage) × (to_fix_string buy_order ≡ ok s)
    × (cls : MessageClass) × (from_string s ≡ some (cls, made))
    × (made.msg_type ≡ some MsgType.new_order_single)
    × Constructs cls MsgType.new_order_single
from_string-to_fix_string_example =
    from_string-to_fix_string buy_order MsgType.new_order_single buy_order-IsSendable typed typeless

-- ===== src/Messages/Classes/OrderCancelRequest.antt =====
-- `OrderCancelRequestMessage` of common/fix_msg.py.
use auto_test_poc.Base.{Option, some, get_or, length, take, ◌-◌}
use auto_test_poc.Py.Text.{Text}
use auto_test_poc.Messages.Enums.Side.{Side, side_value}
use auto_test_poc.Messages.Enums.FixVersion.{FixVersion}
use auto_test_poc.Messages.Enums.MsgType
use auto_test_poc.Messages.Enums.Field
use auto_test_poc.Messages.Message.{FixMessage, new_message, set_field}

-- The constructor
abbrev pub order_cancel_request_message : FixVersion → FixMessage
order_cancel_request_message version = new_message version (some MsgType.order_cancel_request)

abbrev pub set_orig_cl_ord_id : Text → FixMessage → FixMessage
set_orig_cl_ord_id = set_field Field.orig_cl_ord_id

abbrev pub set_cl_ord_id : Text → FixMessage → FixMessage
set_cl_ord_id = set_field Field.cl_ord_id

abbrev pub set_symbol : Text → FixMessage → FixMessage
set_symbol = set_field Field.symbol

abbrev pub set_side : Side → FixMessage → FixMessage
set_side side = set_field Field.side (side_value side)

-- `str` prints the number.
abbrev pub set_order_qty : {Q : Type 0} → (Q → Text) → Q → FixMessage → FixMessage
set_order_qty str qty = set_field Field.order_qty (str qty)

-- A time is what `strftime` makes of it, with microseconds.
abbrev pub set_transact_time : Text → Option Text → FixMessage → FixMessage
set_transact_time now time =
    let written = get_or time now in
    set_field Field.transact_time (take (length written - 3) written)

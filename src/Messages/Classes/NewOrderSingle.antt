-- ===== src/Messages/Classes/NewOrderSingle.antt =====
-- `NewOrderSingleMessage` of common/fix_msg.py.
use auto_test_poc.Base.{Option, some, get_or, length, take, ◌-◌}
use auto_test_poc.Py.Text.{Text}
use auto_test_poc.Messages.Enums.Side.{Side, side_value}
use auto_test_poc.Messages.Enums.OrdType.{OrdType, ord_type_value}
use auto_test_poc.Messages.Enums.TimeInForce.{TimeInForce, time_in_force_value}
use auto_test_poc.Messages.Enums.FixVersion.{FixVersion}
use auto_test_poc.Messages.Enums.MsgType
use auto_test_poc.Messages.Enums.Field
use auto_test_poc.Messages.Message.{FixMessage, new_message, set_field}

-- The constructor
abbrev pub new_order_single_message : FixVersion → FixMessage
new_order_single_message version = new_message version (some MsgType.new_order_single)

abbrev pub set_cl_ord_id : Text → FixMessage → FixMessage
set_cl_ord_id = set_field Field.cl_ord_id

abbrev pub set_symbol : Text → FixMessage → FixMessage
set_symbol = set_field Field.symbol

abbrev pub set_side : Side → FixMessage → FixMessage
set_side side = set_field Field.side (side_value side)

-- `str` prints the number.
abbrev pub set_order_qty : {Q : Type 0} → (Q → Text) → Q → FixMessage → FixMessage
set_order_qty str qty = set_field Field.order_qty (str qty)

abbrev pub set_ord_type : OrdType → FixMessage → FixMessage
set_ord_type ord_type = set_field Field.ord_type (ord_type_value ord_type)

-- `str` prints the number.
abbrev pub set_price : {Q : Type 0} → (Q → Text) → Q → FixMessage → FixMessage
set_price str price = set_field Field.price (str price)

abbrev pub set_time_in_force : TimeInForce → FixMessage → FixMessage
set_time_in_force tif = set_field Field.time_in_force (time_in_force_value tif)

-- A time is what `strftime` makes of it, with microseconds.
abbrev pub set_transact_time : Text → Option Text → FixMessage → FixMessage
set_transact_time now time =
    let written = get_or time now in
    set_field Field.transact_time (take (length written - 3) written)

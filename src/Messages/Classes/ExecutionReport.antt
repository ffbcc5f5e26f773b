-- ===== src/Messages/Classes/ExecutionReport.antt =====
-- `ExecutionReportMessage` of common/fix_msg.py.
use auto_test_poc.Base.{Option, some, get_or, length, take, ◌-◌}
use auto_test_poc.Py.Text.{Text}
use auto_test_poc.Messages.Enums.Side.{Side, side_value}
use auto_test_poc.Messages.Enums.ExecType.{ExecType, exec_type_value}
use auto_test_poc.Messages.Enums.OrdStatus.{OrdStatus, ord_status_value}
use auto_test_poc.Messages.Enums.FixVersion.{FixVersion}
use auto_test_poc.Messages.Enums.MsgType
use auto_test_poc.Messages.Enums.Field
use auto_test_poc.Messages.Message.{FixMessage, new_message, set_field}

-- The constructor
abbrev pub execution_report_message : FixVersion → FixMessage
execution_report_message version = new_message version (some MsgType.execution_report)

abbrev pub set_order_id : Text → FixMessage → FixMessage
set_order_id = set_field Field.order_id

abbrev pub set_cl_ord_id : Text → FixMessage → FixMessage
set_cl_ord_id = set_field Field.cl_ord_id

abbrev pub set_exec_id : Text → FixMessage → FixMessage
set_exec_id = set_field Field.exec_id

abbrev pub set_exec_type : ExecType → FixMessage → FixMessage
set_exec_type exec_type = set_field Field.exec_type (exec_type_value exec_type)

abbrev pub set_ord_status : OrdStatus → FixMessage → FixMessage
set_ord_status ord_status = set_field Field.ord_status (ord_status_value ord_status)

abbrev pub set_symbol : Text → FixMessage → FixMessage
set_symbol = set_field Field.symbol

abbrev pub set_side : Side → FixMessage → FixMessage
set_side side = set_field Field.side (side_value side)

-- `str` prints the number.
abbrev pub set_order_qty : {Q : Type 0} → (Q → Text) → Q → FixMessage → FixMessage
set_order_qty str qty = set_field Field.order_qty (str qty)

-- `str` prints the number.
abbrev pub set_leaves_qty : {Q : Type 0} → (Q → Text) → Q → FixMessage → FixMessage
set_leaves_qty str qty = set_field Field.leaves_qty (str qty)

-- `str` prints the number.
abbrev pub set_cum_qty : {Q : Type 0} → (Q → Text) → Q → FixMessage → FixMessage
set_cum_qty str qty = set_field Field.cum_qty (str qty)

-- `str` prints the number.
abbrev pub set_avg_px : {Q : Type 0} → (Q → Text) → Q → FixMessage → FixMessage
set_avg_px str px = set_field Field.avg_px (str px)

-- `str` prints the number.
abbrev pub set_last_qty : {Q : Type 0} → (Q → Text) → Q → FixMessage → FixMessage
set_last_qty str qty = set_field Field.last_qty (str qty)

-- `str` prints the number.
abbrev pub set_last_px : {Q : Type 0} → (Q → Text) → Q → FixMessage → FixMessage
set_last_px str px = set_field Field.last_px (str px)

-- A time is what `strftime` makes of it, with microseconds.
abbrev pub set_transact_time : Text → Option Text → FixMessage → FixMessage
set_transact_time now time =
    let written = get_or time now in
    set_field Field.transact_time (take (length written - 3) written)

-- ===== src/Messages/Classes/OrderCancelReject.antt =====
-- `OrderCancelRejectMessage` of common/fix_msg.py.
use auto_test_poc.Base.{some}
use auto_test_poc.Base.Int.{ℤ}
use auto_test_poc.Py.Text.{Text}
use auto_test_poc.Py.Decimal.{print_ℤ}
use auto_test_poc.Messages.Enums.OrdStatus.{OrdStatus, ord_status_value}
use auto_test_poc.Messages.Enums.FixVersion.{FixVersion}
use auto_test_poc.Messages.Enums.MsgType
use auto_test_poc.Messages.Enums.Field
use auto_test_poc.Messages.Message.{FixMessage, new_message, set_field}

-- The constructor
abbrev pub order_cancel_reject_message : FixVersion → FixMessage
order_cancel_reject_message version = new_message version (some MsgType.order_cancel_reject)

abbrev pub set_order_id : Text → FixMessage → FixMessage
set_order_id = set_field Field.order_id

abbrev pub set_cl_ord_id : Text → FixMessage → FixMessage
set_cl_ord_id = set_field Field.cl_ord_id

abbrev pub set_orig_cl_ord_id : Text → FixMessage → FixMessage
set_orig_cl_ord_id = set_field Field.orig_cl_ord_id

abbrev pub set_ord_status : OrdStatus → FixMessage → FixMessage
set_ord_status ord_status = set_field Field.ord_status (ord_status_value ord_status)

abbrev pub set_cxl_rej_response_to : ℤ → FixMessage → FixMessage
set_cxl_rej_response_to response_to = set_field Field.cxl_rej_response_to (print_ℤ response_to)

abbrev pub set_cxl_rej_reason : ℤ → FixMessage → FixMessage
set_cxl_rej_reason reason = set_field Field.cxl_rej_reason (print_ℤ reason)

abbrev pub set_text : Text → FixMessage → FixMessage
set_text = set_field Field.text

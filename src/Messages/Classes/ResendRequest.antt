-- ===== src/Messages/Classes/ResendRequest.antt =====
-- `ResendRequestMessage` of common/fix_msg.py.
use auto_test_poc.Base.{some}
use auto_test_poc.Base.Int.{ℤ}
use auto_test_poc.Py.Exceptions.{Result, err, attribute_error}
use auto_test_poc.Messages.Enums.FixVersion.{FixVersion}
use auto_test_poc.Messages.Enums.MsgType
use auto_test_poc.Messages.Message.{FixMessage, new_message}

-- The constructor
abbrev pub resend_request_message : FixVersion → FixMessage
resend_request_message version = new_message version (some MsgType.resend_request)

-- The enumeration has no member of the name that the source takes from it.
abbrev pub set_begin_seq_no : ℤ → FixMessage → Result FixMessage
set_begin_seq_no seq_no m = err attribute_error

-- The enumeration has no member of the name that the source takes from it.
abbrev pub set_end_seq_no : ℤ → FixMessage → Result FixMessage
set_end_seq_no seq_no m = err attribute_error

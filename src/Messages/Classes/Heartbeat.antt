-- ===== src/Messages/Classes/Heartbeat.antt =====
-- `HeartbeatMessage` of common/fix_msg.py.
use auto_test_poc.Base.{some}
use auto_test_poc.Py.Text.{Text}
use auto_test_poc.Messages.Enums.FixVersion.{FixVersion}
use auto_test_poc.Messages.Enums.MsgType
use auto_test_poc.Messages.Enums.Field
use auto_test_poc.Messages.Message.{FixMessage, new_message, set_field}

-- The constructor
abbrev pub heartbeat_message : FixVersion → FixMessage
heartbeat_message version = new_message version (some MsgType.heartbeat)

abbrev pub set_test_req_id : Text → FixMessage → FixMessage
set_test_req_id = set_field Field.test_req_id

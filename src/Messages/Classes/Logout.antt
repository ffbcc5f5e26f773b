-- ===== src/Messages/Classes/Logout.antt =====
-- `LogoutMessage` of common/fix_msg.py.
use auto_test_poc.Base.{some}
use auto_test_poc.Py.Text.{Text}
use auto_test_poc.Messages.Enums.FixVersion.{FixVersion}
use auto_test_poc.Messages.Enums.MsgType
use auto_test_poc.Messages.Enums.Field
use auto_test_poc.Messages.Message.{FixMessage, new_message, set_field}

-- The constructor
abbrev pub logout_message : FixVersion → FixMessage
logout_message version = new_message version (some MsgType.logout)

abbrev pub set_text : Text → FixMessage → FixMessage
set_text = set_field Field.text

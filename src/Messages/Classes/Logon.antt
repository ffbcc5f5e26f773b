-- ===== src/Messages/Classes/Logon.antt =====
-- `LogonMessage` of common/fix_msg.py.
use auto_test_poc.Base.{some, Bool, if◌then◌else◌}
use auto_test_poc.Base.Int.{ℤ}
use auto_test_poc.Py.Text.{codes}
use auto_test_poc.Py.Decimal.{print_ℤ}
use auto_test_poc.Messages.Enums.FixVersion.{FixVersion}
use auto_test_poc.Messages.Enums.MsgType
use auto_test_poc.Messages.Enums.Field
use auto_test_poc.Messages.Message.{FixMessage, new_message, set_field}

-- The constructor
abbrev pub logon_message : FixVersion → FixMessage
logon_message version = new_message version (some MsgType.logon)

abbrev pub set_heartbeat_interval : ℤ → FixMessage → FixMessage
set_heartbeat_interval interval = set_field Field.heart_bt_int (print_ℤ interval)

abbrev pub set_encrypt_method : ℤ → FixMessage → FixMessage
set_encrypt_method method = set_field Field.encrypt_method (print_ℤ method)

abbrev pub set_reset_seq_num_flag : Bool → FixMessage → FixMessage
set_reset_seq_num_flag reset =
    set_field Field.reset_seq_num_flag (if reset then codes "Y" else codes "N")

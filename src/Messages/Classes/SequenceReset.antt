-- ===== src/Messages/Classes/SequenceReset.antt =====
-- `SequenceResetMessage` of common/fix_msg.py.
use auto_test_poc.Base.{some, Bool, if◌then◌else◌}
use auto_test_poc.Base.Int.{ℤ}
use auto_test_poc.Py.Text.{codes}
use auto_test_poc.Py.Decimal.{print_ℤ}
use auto_test_poc.Messages.Enums.FixVersion.{FixVersion}
use auto_test_poc.Messages.Enums.MsgType
use auto_test_poc.Messages.Enums.Field
use auto_test_poc.Messages.Message.{FixMessage, new_message, set_field}

-- The constructor
abbrev pub sequence_reset_message : FixVersion → FixMessage
sequence_reset_message version = new_message version (some MsgType.sequence_reset)

abbrev pub set_gap_fill_flag : Bool → FixMessage → FixMessage
set_gap_fill_flag gap_fill =
    set_field Field.gap_fill_flag (if gap_fill then codes "Y" else codes "N")

abbrev pub set_new_seq_no : ℤ → FixMessage → FixMessage
set_new_seq_no seq_no = set_field Field.new_seq_no (print_ℤ seq_no)

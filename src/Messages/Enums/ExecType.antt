-- ===== src/Messages/Enums/ExecType.antt =====
-- `ExecType` of common/fix_msg.py.
use auto_test_poc.Base.{◌≡◌, refl, List, [], ◌∷◌, some}
use auto_test_poc.Py.Text.{Text, codes}
use auto_test_poc.Messages.Members.{member}

pub data ExecType : Type 0 where
  new partial_fill fill done_for_day canceled replace : ExecType
  pending_cancel stopped rejected suspended pending_new calculated : ExecType
  expired restated pending_replace trade trade_correct trade_cancel : ExecType
  order_status : ExecType

abbrev pub exec_type_value : ExecType → Text
exec_type_value new = codes "0"
exec_type_value partial_fill = codes "1"
exec_type_value fill = codes "2"
exec_type_value done_for_day = codes "3"
exec_type_value canceled = codes "4"
exec_type_value replace = codes "5"
exec_type_value pending_cancel = codes "6"
exec_type_value stopped = codes "7"
exec_type_value rejected = codes "8"
exec_type_value suspended = codes "9"
exec_type_value pending_new = codes "A"
exec_type_value calculated = codes "B"
exec_type_value expired = codes "C"
exec_type_value restated = codes "D"
exec_type_value pending_replace = codes "E"
exec_type_value trade = codes "F"
exec_type_value trade_correct = codes "G"
exec_type_value trade_cancel = codes "H"
exec_type_value order_status = codes "I"

-- `ExecType` as a sequence
abbrev pub exec_types : List ExecType
exec_types =
    new ∷ partial_fill ∷ fill ∷ done_for_day ∷ canceled ∷ replace ∷ pending_cancel ∷ stopped
    ∷ rejected ∷ suspended ∷ pending_new ∷ calculated ∷ expired ∷ restated ∷ pending_replace ∷ trade
    ∷ trade_correct ∷ trade_cancel ∷ order_status ∷ []

-- No two members have the same value.
pub exec_type_value_lem :
    (e : ExecType) → member exec_type_value exec_types (exec_type_value e) ≡ some e
exec_type_value_lem new = refl
exec_type_value_lem partial_fill = refl
exec_type_value_lem fill = refl
exec_type_value_lem done_for_day = refl
exec_type_value_lem canceled = refl
exec_type_value_lem replace = refl
exec_type_value_lem pending_cancel = refl
exec_type_value_lem stopped = refl
exec_type_value_lem rejected = refl
exec_type_value_lem suspended = refl
exec_type_value_lem pending_new = refl
exec_type_value_lem calculated = refl
exec_type_value_lem expired = refl
exec_type_value_lem restated = refl
exec_type_value_lem pending_replace = refl
exec_type_value_lem trade = refl
exec_type_value_lem trade_correct = refl
exec_type_value_lem trade_cancel = refl
exec_type_value_lem order_status = refl

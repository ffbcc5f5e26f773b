-- ===== src/Messages/Enums/OrdStatus.antt =====
-- `OrdStatus` of common/fix_msg.py.
use auto_test_poc.Base.{◌≡◌, refl, List, [], ◌∷◌, some}
use auto_test_poc.Py.Text.{Text, codes}
use auto_test_poc.Messages.Members.{member}

pub data OrdStatus : Type 0 where
  new partially_filled filled done_for_day canceled replaced : OrdStatus
  pending_cancel stopped rejected suspended pending_new calculated : OrdStatus
  expired accepted_for_bidding pending_replace : OrdStatus

abbrev pub ord_status_value : OrdStatus → Text
ord_status_value new = codes "0"
ord_status_value partially_filled = codes "1"
ord_status_value filled = codes "2"
ord_status_value done_for_day = codes "3"
ord_status_value canceled = codes "4"
ord_status_value replaced = codes "5"
ord_status_value pending_cancel = codes "6"
ord_status_value stopped = codes "7"
ord_status_value rejected = codes "8"
ord_status_value suspended = codes "9"
ord_status_value pending_new = codes "A"
ord_status_value calculated = codes "B"
ord_status_value expired = codes "C"
ord_status_value accepted_for_bidding = codes "D"
ord_status_value pending_replace = codes "E"

-- `OrdStatus` as a sequence
abbrev pub ord_statuses : List OrdStatus
ord_statuses =
    new ∷ partially_filled ∷ filled ∷ done_for_day ∷ canceled ∷ replaced ∷ pending_cancel ∷ stopped
    ∷ rejected ∷ suspended ∷ pending_new ∷ calculated ∷ expired ∷ accepted_for_bidding
    ∷ pending_replace ∷ []

-- No two members have the same value.
pub ord_status_value_lem :
    (e : OrdStatus) → member ord_status_value ord_statuses (ord_status_value e) ≡ some e
ord_status_value_lem new = refl
ord_status_value_lem partially_filled = refl
ord_status_value_lem filled = refl
ord_status_value_lem done_for_day = refl
ord_status_value_lem canceled = refl
ord_status_value_lem replaced = refl
ord_status_value_lem pending_cancel = refl
ord_status_value_lem stopped = refl
ord_status_value_lem rejected = refl
ord_status_value_lem suspended = refl
ord_status_value_lem pending_new = refl
ord_status_value_lem calculated = refl
ord_status_value_lem expired = refl
ord_status_value_lem accepted_for_bidding = refl
ord_status_value_lem pending_replace = refl

-- ===== src/Messages/Enums/Side.antt =====
-- `Side` of common/fix_msg.py.
use auto_test_poc.Base.{◌≡◌, refl, List, [], ◌∷◌, some}
use auto_test_poc.Py.Text.{Text, codes}
use auto_test_poc.Messages.Members.{member}

pub data Side : Type 0 where
  buy sell buy_minus sell_plus sell_short sell_short_exempt : Side
  undisclosed cross cross_short : Side

abbrev pub side_value : Side → Text
side_value buy = codes "1"
side_value sell = codes "2"
side_value buy_minus = codes "3"
side_value sell_plus = codes "4"
side_value sell_short = codes "5"
side_value sell_short_exempt = codes "6"
side_value undisclosed = codes "7"
side_value cross = codes "8"
side_value cross_short = codes "9"

-- `Side` as a sequence
abbrev pub sides : List Side
sides =
    buy ∷ sell ∷ buy_minus ∷ sell_plus ∷ sell_short ∷ sell_short_exempt ∷ undisclosed ∷ cross
    ∷ cross_short ∷ []

-- No two members have the same value.
pub side_value_lem : (e : Side) → member side_value sides (side_value e) ≡ some e
side_value_lem buy = refl
side_value_lem sell = refl
side_value_lem buy_minus = refl
side_value_lem sell_plus = refl
side_value_lem sell_short = refl
side_value_lem sell_short_exempt = refl
side_value_lem undisclosed = refl
side_value_lem cross = refl
side_value_lem cross_short = refl

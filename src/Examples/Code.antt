-- ===== src/Examples/Code.antt =====
-- Codes of an order's side, and a name that is an alias.
use auto_test_poc.Base.{◌≡◌, refl, some, none}
use auto_test_poc.Py.Text.{Text, codes}
use auto_test_poc.Py.Dict.{Dict, lookup}
use auto_test_poc.Ahd.OrderCodes.{side_members}
use auto_test_poc.Ahd.MessageCodes.{msg_type_members}
use auto_test_poc.Ahd.Enums.{names, wenums, renums}
use auto_test_poc.Ahd.Inverse.{renums-wenums}

buy_code : lookup (codes "BUY") (names side_members) ≡ some (codes "3")
unfolding lookup
buy_code = refl

-- NEW_ORDER is an alias of ORDER_COMMON.
alias_code : lookup (codes "NEW_ORDER") (names msg_type_members) ≡ none
unfolding lookup
alias_code = refl

side_codes : lookup (codes "Side") wenums ≡ some (names side_members)
unfolding lookup
side_codes = refl

renums-wenums_example :
    (back : Dict Text) × (lookup (codes "Side") renums ≡ some back)
    × (lookup (codes "3") back ≡ some (codes "BUY"))
renums-wenums_example =
    renums-wenums (codes "Side") (codes "BUY") (codes "3") (names side_members) side_codes buy_code

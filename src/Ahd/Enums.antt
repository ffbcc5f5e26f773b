-- ===== src/Ahd/Enums.antt =====
-- `WENUMS` and `RENUMS` of common/ahd_msg.py: the names and values of each enumeration.
use auto_test_poc.Base.{Bool, true, false, List, [], ◌∷◌, if◌then◌else◌}
use auto_test_poc.Py.Text.{Text, codes, text_eq}
use auto_test_poc.Py.Dict.{Dict, insert}
use auto_test_poc.Ahd.OrderCodes.{
  side_members, exec_cond_members, prop_brokerage_class_members, cash_margin_code_members,
  short_sell_flag_members, stab_arb_code_members, order_attr_code_members,
  supp_member_class_members, data_class_code_members, exch_class_code_members,
  market_class_code_members,
}
use auto_test_poc.Ahd.MessageCodes.{
  esp_msg_type_up_members, msg_type_members, esp_msg_type_down_members, reject_reason_members,
  logout_reason_members,
}

abbrev pub is_seen : Text → List Text → Bool
is_seen v [] = false
is_seen v (w ∷ seen) = let rest = is_seen v seen in if text_eq v w then true else rest

-- The members that iterating over an enumeration gives: one that has the value of an earlier one is an
-- alias of that, and is passed over.
abbrev pub canonical : List Text → List (Text × Text) → List (Text × Text)
canonical seen [] = []
canonical seen ((name, value) ∷ members) =
    let rest = canonical (value ∷ seen) members in
    let skipped = canonical seen members in
    if is_seen value seen then skipped else (name, value) ∷ rest

-- `{e.name: e.value for e in E}`, where no two members have one name.
abbrev pub names : List (Text × Text) → Dict Text
names members = canonical [] members

-- `WENUMS`
abbrev pub wenums : Dict (Dict Text)
wenums =
    (codes "Side", names side_members)
    ∷ (codes "ExecCond", names exec_cond_members)
    ∷ (codes "PropBrokerageClass", names prop_brokerage_class_members)
    ∷ (codes "CashMarginCode", names cash_margin_code_members)
    ∷ (codes "ShortSellFlag", names short_sell_flag_members)
    ∷ (codes "StabArbCode", names stab_arb_code_members)
    ∷ (codes "OrderAttrCode", names order_attr_code_members)
    ∷ (codes "SuppMemberClass", names supp_member_class_members)
    ∷ (codes "DataClassCode", names data_class_code_members)
    ∷ (codes "ExchClassCode", names exch_class_code_members)
    ∷ (codes "MarketClassCode", names market_class_code_members)
    ∷ (codes "ESPMsgTypeUp", names esp_msg_type_up_members)
    ∷ (codes "MsgType", names msg_type_members)
    ∷ (codes "ESPMsgTypeDown", names esp_msg_type_down_members)
    ∷ (codes "RejectReason", names reject_reason_members)
    ∷ (codes "LogoutReason", names logout_reason_members)
    ∷ []

-- `{v: k for k, v in vals.items()}`
abbrev pub reversed_onto : Dict Text → Dict Text → Dict Text
reversed_onto acc [] = acc
reversed_onto acc ((name, value) ∷ vals) = reversed_onto (insert value name acc) vals

abbrev pub reversed : Dict Text → Dict Text
reversed vals = reversed_onto [] vals

-- `RENUMS`
abbrev pub reverse_all : Dict (Dict Text) → Dict (Dict Text)
reverse_all [] = []
reverse_all ((tag, vals) ∷ enums) = (tag, reversed vals) ∷ reverse_all enums

abbrev pub renums : Dict (Dict Text)
renums = reverse_all wenums

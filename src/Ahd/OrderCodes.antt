-- ===== src/Ahd/OrderCodes.antt =====
-- The enumerations of common/ahd_msg.py that orders are made of: the members in their order, with their values.
use auto_test_poc.Base.{List, [], ◌∷◌}
use auto_test_poc.Py.Text.{Text, codes}

-- `Side`
abbrev pub side_members : List (Text × Text)
side_members = (codes "SELL", codes "1") ∷ (codes "BUY", codes "3") ∷ []

-- `ExecCond`
abbrev pub exec_cond_members : List (Text × Text)
exec_cond_members =
    (codes "NONE", codes "0")
    ∷ (codes "AT_OPEN", codes "2")
    ∷ (codes "AT_CLOSE", codes "4")
    ∷ (codes "FUNARI", codes "6")
    ∷ (codes "IOC", codes "8")
    ∷ []

-- `PropBrokerageClass`
abbrev pub prop_brokerage_class_members : List (Text × Text)
prop_brokerage_class_members =
    (codes "BROKERAGE", codes "0") ∷ (codes "PROPRIETARY", codes "9") ∷ []

-- `CashMarginCode`
abbrev pub cash_margin_code_members : List (Text × Text)
cash_margin_code_members =
    (codes "CASH", codes "0") ∷ (codes "TRUST", codes "2") ∷ (codes "LIQUIDATION", codes "4") ∷ []

-- `ShortSellFlag`
abbrev pub short_sell_flag_members : List (Text × Text)
short_sell_flag_members =
    (codes "NONE", codes "0")
    ∷ (codes "WITH_PRICE_REG", codes "5")
    ∷ (codes "WITHOUT_PRICE_REG", codes "7")
    ∷ []

-- `StabArbCode`
abbrev pub stab_arb_code_members : List (Text × Text)
stab_arb_code_members =
    (codes "NONE", codes "0")
    ∷ (codes "STABILIZATION", codes "6")
    ∷ (codes "ARBITRAGE", codes "8")
    ∷ []

-- `OrderAttrCode`
abbrev pub order_attr_code_members : List (Text × Text)
order_attr_code_members =
    (codes "AUTOMATIC", codes "1")
    ∷ (codes "MANUAL", codes "2")
    ∷ (codes "LLT_MARKET_MAKING", codes "3")
    ∷ (codes "LLT_ARBITRAGE", codes "4")
    ∷ (codes "LLT_DIRECTIONAL", codes "5")
    ∷ (codes "LLT_OTHER", codes "6")
    ∷ []

-- `SuppMemberClass`
abbrev pub supp_member_class_members : List (Text × Text)
supp_member_class_members =
    (codes "NONE", codes "0") ∷ (codes "SUPPORT_MEMBER_ORDER", codes "1") ∷ []

-- `DataClassCode`
abbrev pub data_class_code_members : List (Text × Text)
data_class_code_members =
    (codes "NEW_ORDER", codes "1111")
    ∷ (codes "MOD_ORDER", codes "9132")
    ∷ (codes "CANCEL_ORDER", codes "7122")
    ∷ []

-- `ExchClassCode`
abbrev pub exch_class_code_members : List (Text × Text)
exch_class_code_members =
    (codes "TOKYO", codes "1")
    ∷ (codes "NAGOYA", codes "3")
    ∷ (codes "FUKUOKA", codes "6")
    ∷ (codes "SAPPORO", codes "8")
    ∷ []

-- `MarketClassCode`
abbrev pub market_class_code_members : List (Text × Text)
market_class_code_members =
    (codes "COMMON_INFO", codes "10") ∷ (codes "STOCKS", codes "11") ∷ (codes "CB", codes "12") ∷ []

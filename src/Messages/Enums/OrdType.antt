-- ===== src/Messages/Enums/OrdType.antt =====
-- `OrdType` of common/fix_msg.py.
use auto_test_poc.Base.{◌≡◌, refl, List, [], ◌∷◌, some}
use auto_test_poc.Py.Text.{Text, codes}
use auto_test_poc.Messages.Members.{member}

pub data OrdType : Type 0 where
  market limit stop stop_limit market_on_close with_or_without : OrdType
  limit_or_better limit_with_or_without on_basis on_close limit_on_close forex_market : OrdType
  previously_quoted previously_indicated forex_limit forex_swap forex_previously_quoted funari :
      OrdType
  market_if_touched market_with_leftover previous_fund_valuation_point next_fund_valuation_point
        pegged :
      OrdType

abbrev pub ord_type_value : OrdType → Text
ord_type_value market = codes "1"
ord_type_value limit = codes "2"
ord_type_value stop = codes "3"
ord_type_value stop_limit = codes "4"
ord_type_value market_on_close = codes "5"
ord_type_value with_or_without = codes "6"
ord_type_value limit_or_better = codes "7"
ord_type_value limit_with_or_without = codes "8"
ord_type_value on_basis = codes "9"
ord_type_value on_close = codes "A"
ord_type_value limit_on_close = codes "B"
ord_type_value forex_market = codes "C"
ord_type_value previously_quoted = codes "D"
ord_type_value previously_indicated = codes "E"
ord_type_value forex_limit = codes "F"
ord_type_value forex_swap = codes "G"
ord_type_value forex_previously_quoted = codes "H"
ord_type_value funari = codes "I"
ord_type_value market_if_touched = codes "J"
ord_type_value market_with_leftover = codes "K"
ord_type_value previous_fund_valuation_point = codes "L"
ord_type_value next_fund_valuation_point = codes "M"
ord_type_value pegged = codes "P"

-- `OrdType` as a sequence
abbrev pub ord_types : List OrdType
ord_types =
    market ∷ limit ∷ stop ∷ stop_limit ∷ market_on_close ∷ with_or_without ∷ limit_or_better
    ∷ limit_with_or_without ∷ on_basis ∷ on_close ∷ limit_on_close ∷ forex_market
    ∷ previously_quoted ∷ previously_indicated ∷ forex_limit ∷ forex_swap ∷ forex_previously_quoted
    ∷ funari ∷ market_if_touched ∷ market_with_leftover ∷ previous_fund_valuation_point
    ∷ next_fund_valuation_point ∷ pegged ∷ []

-- No two members have the same value.
pub ord_type_value_lem : (e : OrdType) → member ord_type_value ord_types (ord_type_value e) ≡ some e
ord_type_value_lem market = refl
ord_type_value_lem limit = refl
ord_type_value_lem stop = refl
ord_type_value_lem stop_limit = refl
ord_type_value_lem market_on_close = refl
ord_type_value_lem with_or_without = refl
ord_type_value_lem limit_or_better = refl
ord_type_value_lem limit_with_or_without = refl
ord_type_value_lem on_basis = refl
ord_type_value_lem on_close = refl
ord_type_value_lem limit_on_close = refl
ord_type_value_lem forex_market = refl
ord_type_value_lem previously_quoted = refl
ord_type_value_lem previously_indicated = refl
ord_type_value_lem forex_limit = refl
ord_type_value_lem forex_swap = refl
ord_type_value_lem forex_previously_quoted = refl
ord_type_value_lem funari = refl
ord_type_value_lem market_if_touched = refl
ord_type_value_lem market_with_leftover = refl
ord_type_value_lem previous_fund_valuation_point = refl
ord_type_value_lem next_fund_valuation_point = refl
ord_type_value_lem pegged = refl

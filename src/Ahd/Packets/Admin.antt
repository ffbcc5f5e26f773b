-- ===== src/Ahd/Packets/Admin.antt =====
-- The packet classes of common/ahd_msg.py for administration: the fields in their order, with their defaults.
use auto_test_poc.Base.{[], ◌∷◌, none, some, replicate}
use auto_test_poc.Py.Text.{codes}
use auto_test_poc.Ahd.Fields.{
  PacketClass, char_field, int_field, packet, price_field, right_field, str_field, subclass,
  time_field9,
}

-- `AdminCommon`
abbrev pub admin_common_packet : PacketClass
admin_common_packet = packet "AdminCommon" (some (codes "AdminCommon")) (
    int_field "DataLength" none 5
    ∷ str_field "DataCode" (some (codes "    ")) 4
    ∷ str_field "ExchangeCode" (some (codes " ")) 1
    ∷ str_field "MarketCode" (some (codes "  ")) 2
    ∷ right_field "ParticipantCode" none 5
    ∷ right_field "VirtualServerNo" none 6
    ∷ str_field "NumberOfResponseRecords" (some (codes "    1")) 5
    ∷ str_field "Reserved" (some (replicate 17 32)) 17
    ∷ right_field "ReasonCode" none 4
    ∷ [])

-- `AdminCommonOU`
abbrev pub admin_common_ou_packet : PacketClass
admin_common_ou_packet = subclass "AdminCommonOU" none admin_common_packet

-- `AdminCommonOD`
abbrev pub admin_common_od_packet : PacketClass
admin_common_od_packet = subclass "AdminCommonOD" none admin_common_packet

-- `AdminCommonQU`
abbrev pub admin_common_qu_packet : PacketClass
admin_common_qu_packet = subclass "AdminCommonQU" none admin_common_packet

-- `AdminCommonQD`
abbrev pub admin_common_qd_packet : PacketClass
admin_common_qd_packet = subclass "AdminCommonQD" none admin_common_packet

-- `AdminCommonDU`
abbrev pub admin_common_du_packet : PacketClass
admin_common_du_packet = subclass "AdminCommonDU" none admin_common_packet

-- `AdminCommonDD`
abbrev pub admin_common_dd_packet : PacketClass
admin_common_dd_packet = subclass "AdminCommonDD" none admin_common_packet

-- `MarketAdmin`
abbrev pub market_admin_packet : PacketClass
market_admin_packet = packet "MarketAdmin" (some (codes "MarketAdmin")) (
    char_field "OperationStatus" (some (codes "1"))
      ((codes "1", codes "Start") ∷ (codes "0", codes "End") ∷ [])
    ∷ char_field "OrderStatus" (some (codes "1"))
        ((codes "1", codes "Accepting") ∷ (codes "0", codes "Non-Accepting") ∷ [])
    ∷ [])

-- `TradingHalt`
abbrev pub trading_halt_packet : PacketClass
trading_halt_packet = packet "TradingHalt" (some (codes "TradingHalt")) (
    str_field "TypeCode" (some (codes "A001")) 4
    ∷ str_field "TargetRangeCode" (some (codes " 1")) 2
    ∷ str_field "TargetExchchangeCode" (some (codes "1")) 1
    ∷ str_field "TargetMarketCode" (some (codes "11")) 2
    ∷ str_field "Reserved" (some (codes "  ")) 2
    ∷ right_field "TargetIssueCode" none 12
    ∷ time_field9 "TimeOfOccurence" none
    ∷ time_field9 "OrderAcceptanceRestartTime" none
    ∷ time_field9 "EffectiveTime" none
    ∷ right_field "IssueCode1" none 12
    ∷ right_field "IssueCode2" none 12
    ∷ right_field "IssueCode3" none 12
    ∷ right_field "IssueCode4" none 12
    ∷ right_field "IssueCode5" none 12
    ∷ right_field "IssueCode6" none 12
    ∷ right_field "IssueCode7" none 12
    ∷ right_field "IssueCode8" none 12
    ∷ right_field "IssueCode9" none 12
    ∷ right_field "IssueCode10" none 12
    ∷ [])

-- `PriceLimitInfo`
abbrev pub price_limit_info_packet : PacketClass
price_limit_info_packet = packet "PriceLimitInfo" (some (codes "PriceLimitInfo")) (
    str_field "TypeCode" (some (codes "A031")) 4
    ∷ str_field "TargetRangeCode" (some (codes " 1")) 2
    ∷ str_field "TargetExchangeCode" (some (codes "1")) 1
    ∷ str_field "TargetMarketCode" (some (codes "11")) 2
    ∷ str_field "Reserved" (some (codes "  ")) 2
    ∷ right_field "IssueCode" none 12
    ∷ time_field9 "TimeOfOccurence" none
    ∷ price_field "BasePrice" none 8 4
    ∷ price_field "DailyUpperPriceLimit" none 8 4
    ∷ price_field "DailyLowerPriceLimit" none 8 4
    ∷ [])

-- `FreeFormWarning`
abbrev pub free_form_warning_packet : PacketClass
free_form_warning_packet = packet "FreeFormWarning" (some (codes "FreeFormWarning")) (
    str_field "TypeCode" (some (codes "A081")) 4
    ∷ str_field "TargetRangeCode" (some (codes " 1")) 2
    ∷ str_field "TargetExchangeCode" (some (codes "1")) 1
    ∷ str_field "TargetMarketCode" (some (codes "11")) 2
    ∷ str_field "Reserved" (some (codes "  ")) 2
    ∷ right_field "IssueCode" none 12
    ∷ time_field9 "TimeOfOccurence" none
    ∷ right_field "Title" none 60
    ∷ right_field "Body" none 600
    ∷ [])

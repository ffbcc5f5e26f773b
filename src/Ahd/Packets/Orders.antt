-- ===== src/Ahd/Packets/Orders.antt =====
-- The packet classes of common/ahd_msg.py for orders: the fields in their order, with their defaults.
use auto_test_poc.Base.{[], ◌∷◌, none, some, replicate}
use auto_test_poc.Py.Text.{codes}
use auto_test_poc.Ahd.OrderCodes.{
  cash_margin_code_members, exec_cond_members, order_attr_code_members,
  prop_brokerage_class_members, short_sell_flag_members, side_members, stab_arb_code_members,
  supp_member_class_members,
}
use auto_test_poc.Ahd.Enums.{names, reversed}
use auto_test_poc.Ahd.Fields.{
  PacketClass, char_field, int_field, packet, price_field, right_field, str_field, subclass,
}

-- `OrderCommon`
abbrev pub order_common_packet : PacketClass
order_common_packet = packet "OrderCommon" (some (codes "OrderCommon")) (
    int_field "DataLen" none 5
    ∷ right_field "DataCode" none 4
    ∷ right_field "ExchangeCode" none 1
    ∷ right_field "MarketCode" none 2
    ∷ right_field "ParticipantCode" none 5
    ∷ right_field "VirtualServerNo" none 6
    ∷ str_field "Reserved" (some (replicate 6 32)) 6
    ∷ int_field "OrderEntrySeqNo" none 8
    ∷ str_field "Reserved2" (some (replicate 5 32)) 5
    ∷ [])

-- `OrderCommonO`
abbrev pub order_common_o_packet : PacketClass
order_common_o_packet = subclass "OrderCommonO" none order_common_packet

-- `OrderCommonQ`
abbrev pub order_common_q_packet : PacketClass
order_common_q_packet = subclass "OrderCommonQ" none order_common_packet

-- `OrderCommonD`
abbrev pub order_common_d_packet : PacketClass
order_common_d_packet = subclass "OrderCommonD" none order_common_packet

-- `NewOrder`
abbrev pub new_order_packet : PacketClass
new_order_packet = packet "NewOrder" (some (codes "NewOrder")) (
    str_field "Reserved" (some (codes "  ")) 2
    ∷ right_field "IssueCode" none 12
    ∷ char_field "Side" (some (codes "3")) (reversed (names side_members))
    ∷ char_field "ExecutionCondition" (some (codes "0")) (reversed (names exec_cond_members))
    ∷ price_field "OrderPrice" none 8 4
    ∷ int_field "OrderQuantity" none 13
    ∷ char_field "ProprietaryBrokerage" (some (codes "0"))
        (reversed (names prop_brokerage_class_members))
    ∷ char_field "CashMarginCode" (some (codes "0")) (reversed (names cash_margin_code_members))
    ∷ char_field "ShortSellFlag" (some (codes "0")) (reversed (names short_sell_flag_members))
    ∷ char_field "StabilizationArbitrageCode" (some (codes "0"))
        (reversed (names stab_arb_code_members))
    ∷ char_field "OrderAttribute" (some (codes "1")) (reversed (names order_attr_code_members))
    ∷ char_field "SupportMember" (some (codes "0")) (reversed (names supp_member_class_members))
    ∷ right_field "InternalProcessing" none 20
    ∷ right_field "Optional" (some (codes "0000")) 4
    ∷ str_field "Reserved" (some (replicate 19 32)) 19
    ∷ [])

-- `ModificationOrder`
abbrev pub modification_order_packet : PacketClass
modification_order_packet = packet "ModificationOrder" (some (codes "ModificationOrder")) (
    str_field "Reserved" (some (codes "  ")) 2
    ∷ right_field "IssueCode" none 12
    ∷ int_field "OrderAcceptanceNo" none 14
    ∷ right_field "InternalProcessing" none 20
    ∷ char_field "ExecutionCondition" (some (codes " ")) (reversed (names exec_cond_members))
    ∷ price_field "OrderPrice" none 8 4
    ∷ int_field "ReductionQuantity" none 13
    ∷ right_field "Optional" none 4
    ∷ [])

-- `ModificationOrderByAcceptanceNo`
abbrev pub modification_order_by_acceptance_no_packet : PacketClass
modification_order_by_acceptance_no_packet =
    subclass "ModificationOrderByAcceptanceNo" none modification_order_packet

-- `ModificationOrderByInternal`
abbrev pub modification_order_by_internal_packet : PacketClass
modification_order_by_internal_packet =
    subclass "ModificationOrderByInternal" none modification_order_packet

-- `CancelOrder`
abbrev pub cancel_order_packet : PacketClass
cancel_order_packet = packet "CancelOrder" (some (codes "CancelOrder")) (
    str_field "Reserved" (some (codes "  ")) 2
    ∷ right_field "IssueCode" none 12
    ∷ int_field "OrderAcceptanceNo" none 14
    ∷ right_field "InternalProcessing" none 20
    ∷ [])

-- `CancelOrderByAcceptanceNo`
abbrev pub cancel_order_by_acceptance_no_packet : PacketClass
cancel_order_by_acceptance_no_packet = subclass "CancelOrderByAcceptanceNo" none cancel_order_packet

-- `CancelOrderByInternal`
abbrev pub cancel_order_by_internal_packet : PacketClass
cancel_order_by_internal_packet = subclass "CancelOrderByInternal" none cancel_order_packet

-- ===== src/Ahd/Packets/Notices.antt =====
-- The packet classes of common/ahd_msg.py for notices of orders: the fields in their order, with their defaults.
use auto_test_poc.Base.{[], ◌∷◌, none, some, replicate}
use auto_test_poc.Py.Text.{codes}
use auto_test_poc.Ahd.OrderCodes.{
  cash_margin_code_members, exec_cond_members, order_attr_code_members,
  prop_brokerage_class_members, short_sell_flag_members, side_members, stab_arb_code_members,
  supp_member_class_members,
}
use auto_test_poc.Ahd.Enums.{names, reversed}
use auto_test_poc.Ahd.Fields.{
  PacketClass, char_field, int_field, packet, price_field, right_field, str_field, subclass,
  time_field12,
}

-- `NoticeCommon`
abbrev pub notice_common_packet : PacketClass
notice_common_packet = packet "NoticeCommon" (some (codes "NoticeCommon")) (
    int_field "DataLength" none 5
    ∷ str_field "DataCode" (some (codes "    ")) 4
    ∷ str_field "ExchangeCode" (some (codes "    ")) 1
    ∷ str_field "MarketCode" (some (codes "    ")) 2
    ∷ right_field "ParticipantCode" none 5
    ∷ right_field "SourceVirtualServerNo" none 6
    ∷ right_field "DestinationVirtualServerNo" none 6
    ∷ int_field "OrderEntrySeqNo" none 8
    ∷ int_field "NoticeSeqNo" none 8
    ∷ str_field "ReasonCode" (some (codes "    ")) 4
    ∷ char_field "Retransmission Flag" (some (codes "0"))
        ((codes "0", codes "Normal") ∷ (codes "1", codes "Retransmission") ∷ [])
    ∷ time_field12 "Time" none
    ∷ str_field "Reserved" (some (codes "  ")) 2
    ∷ [])

-- `NoticeCommonO`
abbrev pub notice_common_o_packet : PacketClass
notice_common_o_packet = subclass "NoticeCommonO" none notice_common_packet

-- `NoticeCommonQ`
abbrev pub notice_common_q_packet : PacketClass
notice_common_q_packet = subclass "NoticeCommonQ" none notice_common_packet

-- `NoticeCommonD`
abbrev pub notice_common_d_packet : PacketClass
notice_common_d_packet = subclass "NoticeCommonD" none notice_common_packet

-- `NewOrderAcceptanceNotice`
abbrev pub new_order_acceptance_notice_packet : PacketClass
new_order_acceptance_notice_packet =
    packet "NewOrderAcceptanceNotice" (some (codes "NewOrderAcceptanceNotice")) (
      str_field "Reserved" (some (codes "  ")) 2
      ∷ right_field "IssueCode" none 12
      ∷ char_field "Side" (some (codes "3")) (reversed (names side_members))
      ∷ char_field "ExecutionCondition" (some (codes "0")) (reversed (names exec_cond_members))
      ∷ price_field "OrderPrice" none 8 4
      ∷ int_field "OrderQuantity" none 13
      ∷ char_field "PropriataryBrokerage" (some (codes "0"))
          (reversed (names prop_brokerage_class_members))
      ∷ char_field "CashMarginCode" (some (codes "0")) (reversed (names cash_margin_code_members))
      ∷ char_field "ShortSellFlag" (some (codes "0")) (reversed (names short_sell_flag_members))
      ∷ char_field "StabilizationArbitrageCode" (some (codes "0"))
          (reversed (names stab_arb_code_members))
      ∷ char_field "OrderAttribute" (some (codes "1")) (reversed (names order_attr_code_members))
      ∷ char_field "SupportMember" (some (codes "0")) (reversed (names supp_member_class_members))
      ∷ right_field "InternalProcessing" none 20
      ∷ right_field "Optional" (some (codes "0000")) 4
      ∷ right_field "OrderAcceptanceNo" none 14
      ∷ str_field "Reserved2" (some (replicate 19 32)) 19
      ∷ [])

-- `NewOrderAcceptanceError`
abbrev pub new_order_acceptance_error_packet : PacketClass
new_order_acceptance_error_packet =
    subclass "NewOrderAcceptanceError" (some (codes "NewOrderAcceptanceError"))
      new_order_acceptance_notice_packet

-- `NewOrderRegistrationError`
abbrev pub new_order_registration_error_packet : PacketClass
new_order_registration_error_packet =
    subclass "NewOrderRegistrationError" (some (codes "NewOrderRegistrationError"))
      new_order_acceptance_notice_packet

-- `ModificationOrderAcceptanceNotice`
abbrev pub modification_order_acceptance_notice_packet : PacketClass
modification_order_acceptance_notice_packet =
    packet "ModificationOrderAcceptanceNotice" (some (codes "ModificationOrderAcceptanceNotice")) (
      str_field "Reserved" (some (codes "  ")) 2
      ∷ right_field "IssueCode" none 12
      ∷ right_field "OrderAcceptanceNo" none 14
      ∷ right_field "InternalProcessing" none 20
      ∷ char_field "ExecutionCondition" (some (codes "0")) (reversed (names exec_cond_members))
      ∷ price_field "OrderPrice" none 8 4
      ∷ int_field "ReductionQuantity" none 13
      ∷ right_field "Optional" none 4
      ∷ [])

-- `ModificationOrderAcceptanceError`
abbrev pub modification_order_acceptance_error_packet : PacketClass
modification_order_acceptance_error_packet =
    subclass "ModificationOrderAcceptanceError" (some (codes "ModificationOrderAcceptanceError"))
      modification_order_acceptance_notice_packet

-- `ModificationOrderRegistrationError`
abbrev pub modification_order_registration_error_packet : PacketClass
modification_order_registration_error_packet =
    subclass "ModificationOrderRegistrationError"
      (some (codes "ModificationOrderRegistrationError"))
      modification_order_acceptance_notice_packet

-- `ModificationOrderResultNotice`
abbrev pub modification_order_result_notice_packet : PacketClass
modification_order_result_notice_packet =
    packet "ModificationOrderResultNotice" (some (codes "ModResultNotice")) (
      str_field "Reserved" (some (codes "  ")) 2
      ∷ right_field "IssueCode" none 12
      ∷ right_field "OrderAcceptanceNo" none 14
      ∷ right_field "InternalProcessing" none 20
      ∷ right_field "Optional" none 4
      ∷ char_field "ExecutionCondition" (some (codes "0")) (reversed (names exec_cond_members))
      ∷ price_field "OrderPrice" none 8 4
      ∷ int_field "OrderQuantity" none 13
      ∷ right_field "Optional2" none 4
      ∷ int_field "PartiallyExecutedQuantity" none 13
      ∷ int_field "ReductionCompletedQuantity" none 13
      ∷ int_field "NoticeNo" none 13
      ∷ [])

-- `CancelOrderAcceptanceNotice`
abbrev pub cancel_order_acceptance_notice_packet : PacketClass
cancel_order_acceptance_notice_packet =
    packet "CancelOrderAcceptanceNotice" (some (codes "CancelOrderAcceptanceNotice")) (
      str_field "Reserved" (some (codes "  ")) 2
      ∷ right_field "IssueCode" none 12
      ∷ right_field "OrderAcceptanceNo" none 14
      ∷ right_field "InternalProcessing" none 20
      ∷ [])

-- `CancelOrderAcceptanceError`
abbrev pub cancel_order_acceptance_error_packet : PacketClass
cancel_order_acceptance_error_packet =
    subclass "CancelOrderAcceptanceError" (some (codes "CancelOrderAcceptanceError"))
      cancel_order_acceptance_notice_packet

-- `CancelOrderRegistrationError`
abbrev pub cancel_order_registration_error_packet : PacketClass
cancel_order_registration_error_packet =
    subclass "CancelOrderRegistrationError" (some (codes "CancelOrderRegistrationError"))
      cancel_order_acceptance_notice_packet

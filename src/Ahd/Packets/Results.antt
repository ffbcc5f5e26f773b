-- ===== src/Ahd/Packets/Results.antt =====
-- The packet classes of common/ahd_msg.py for results: the fields in their order, with their defaults.
use auto_test_poc.Base.{[], ◌∷◌, none, some, replicate}
use auto_test_poc.Py.Text.{codes}
use auto_test_poc.Ahd.OrderCodes.{
  cash_margin_code_members, exec_cond_members, order_attr_code_members,
  prop_brokerage_class_members, short_sell_flag_members, side_members, stab_arb_code_members,
  supp_member_class_members,
}
use auto_test_poc.Ahd.Enums.{names, reversed}
use auto_test_poc.Ahd.Fields.{
  PacketClass, char_field, int_field, packet, price_field, right_field, str_field, subclass,
}

-- `CancelOrderResultNotice`
abbrev pub cancel_order_result_notice_packet : PacketClass
cancel_order_result_notice_packet =
    packet "CancelOrderResultNotice" (some (codes "CancelOrderResultNotice")) (
      str_field "Reserved" (some (codes "  ")) 2
      ∷ right_field "IssueCode" none 12
      ∷ right_field "OrderAcceptanceNo" none 14
      ∷ right_field "InternalProcessing" none 20
      ∷ right_field "Optional" (some (codes "0000")) 4
      ∷ int_field "PartiallyExecutedQuantity" none 13
      ∷ int_field "ReductionCompletedQuantity" none 13
      ∷ int_field "NoticeNo" none 13
      ∷ [])

-- `ExecutionCompletionNotice`
abbrev pub execution_completion_notice_packet : PacketClass
execution_completion_notice_packet =
    packet "ExecutionCompletionNotice" (some (codes "ExecutionCompletionNotice")) (
      str_field "Reserved" (some (codes "  ")) 2
      ∷ right_field "IssueCode" none 12
      ∷ char_field "Side" (some (codes " ")) (reversed (names side_members))
      ∷ char_field "ExecutionCondition" (some (codes "0")) (reversed (names exec_cond_members))
      ∷ price_field "ExecutionPrice" none 8 4
      ∷ int_field "ExecutedQuantity" none 13
      ∷ char_field "PropriataryBrokerage" (some (codes "0"))
          (reversed (names prop_brokerage_class_members))
      ∷ char_field "CashMarginCode" (some (codes "0")) (reversed (names cash_margin_code_members))
      ∷ char_field "ShortSellFlag" (some (codes "0")) (reversed (names short_sell_flag_members))
      ∷ char_field "StabilizationArbitrageCode" (some (codes "0"))
          (reversed (names stab_arb_code_members))
      ∷ char_field "OrderAttribute" (some (codes "1")) (reversed (names order_attr_code_members))
      ∷ char_field "SupportMember" (some (codes "0")) (reversed (names supp_member_class_members))
      ∷ right_field "InternalProcessing" none 20
      ∷ right_field "Optional" (some (codes "0000")) 4
      ∷ str_field "Reserved2" (some (replicate 19 32)) 19
      ∷ int_field "ValidOrderQuantity" none 13
      ∷ char_field "CrossFlag" (some (codes " "))
          ((codes "0", codes "0") ∷ (codes "8", codes "8") ∷ [])
      ∷ char_field "PriceFlag" (some (codes " ")) (
          (codes "1", codes "Fixed")
          ∷ (codes "9", codes "LimitAllocation")
          ∷ (codes "0", codes "Other")
          ∷ [])
      ∷ int_field "ExecutionNoticeNo" none 8
      ∷ right_field "OrderAcceptanceNo" none 14
      ∷ int_field "NoticeNo" none 13
      ∷ [])

-- `InvalidationResultNotice`
abbrev pub invalidation_result_notice_packet : PacketClass
invalidation_result_notice_packet =
    packet "InvalidationResultNotice" (some (codes "InvalidationResultNotice")) (
      str_field "Reserved" (some (codes "  ")) 2
      ∷ right_field "IssueCode" none 12
      ∷ char_field "Side" (some (codes " ")) (reversed (names side_members))
      ∷ char_field "ExecutionCondition" (some (codes "0")) (reversed (names exec_cond_members))
      ∷ price_field "ExecutionPrice" none 8 4
      ∷ int_field "ExecutedQuantity" none 13
      ∷ char_field "PropriataryBrokerage" (some (codes "0"))
          (reversed (names prop_brokerage_class_members))
      ∷ char_field "CashMarginCode" (some (codes "0")) (reversed (names cash_margin_code_members))
      ∷ char_field "ShortSellFlag" (some (codes "0")) (reversed (names short_sell_flag_members))
      ∷ char_field "StabilizationArbitrageCode" (some (codes "0"))
          (reversed (names stab_arb_code_members))
      ∷ char_field "OrderAttribute" (some (codes "1")) (reversed (names order_attr_code_members))
      ∷ char_field "SupportMember" (some (codes "0")) (reversed (names supp_member_class_members))
      ∷ right_field "InternalProcessing" none 20
      ∷ right_field "Optional" (some (codes "0000")) 4
      ∷ right_field "OrderAcceptanceNo" none 14
      ∷ str_field "Reserved" (some (replicate 19 32)) 19
      ∷ int_field "PartiallyExecutedQuantity" none 13
      ∷ char_field "LimitFlag" (some (codes " "))
          ((codes "9", codes "LimitAllocation") ∷ (codes "0", codes "Other") ∷ [])
      ∷ int_field "NoticeNo" none 13
      ∷ [])

-- `AcceptanceOutputCompletionNotice`
abbrev pub acceptance_output_completion_notice_packet : PacketClass
acceptance_output_completion_notice_packet =
    packet "AcceptanceOutputCompletionNotice" (some (codes "AcceptanceOutputCompletionNotice"))
      (str_field "SessionType" (some (codes "1")) 1 ∷ [])

-- `ExecutionOutputCompletionNotice`
abbrev pub execution_output_completion_notice_packet : PacketClass
execution_output_completion_notice_packet =
    subclass "ExecutionOutputCompletionNotice" (some (codes "ExecutionOutputCompletionNotice"))
      acceptance_output_completion_notice_packet

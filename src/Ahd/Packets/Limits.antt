-- ===== src/Ahd/Packets/Limits.antt =====
-- The packet classes of common/ahd_msg.py for limits and errors: the fields in their order, with their defaults.
use auto_test_poc.Base.{[], ◌∷◌, none, some, replicate}
use auto_test_poc.Py.Text.{codes}
use auto_test_poc.Ahd.Fields.{
  PacketClass, char_field, int_field, packet, price_field, right_field, str_field, subclass,
  time_field9,
}

-- `HardLimitSetupRequest`
abbrev pub hard_limit_setup_request_packet : PacketClass
hard_limit_setup_request_packet =
    packet "HardLimitSetupRequest" (some (codes "HardLimitSetupRequest")) (
      right_field "VirtualServerNo" (some (replicate 6 b'0')) 6
      ∷ price_field "OrderLimit" none 15 4
      ∷ price_field "CumulativeOrderLimit" none 15 4
      ∷ int_field "CumulativeOrderInterval" none 5
      ∷ price_field "CumulativeExecutionLimit" none 15 4
      ∷ int_field "CumulativeExectutionInterval" none 5
      ∷ [])

-- `HardLimitSetupResponse`
abbrev pub hard_limit_setup_response_packet : PacketClass
hard_limit_setup_response_packet =
    subclass "HardLimitSetupResponse" (some (codes "HardLimitSetupResponse"))
      hard_limit_setup_request_packet

-- `HardLimitSetupErrorResponse`
abbrev pub hard_limit_setup_error_response_packet : PacketClass
hard_limit_setup_error_response_packet =
    subclass "HardLimitSetupErrorResponse" (some (codes "HardLimitSetupErrorResponse"))
      hard_limit_setup_response_packet

-- `HardLimitEnquiryRequest`
abbrev pub hard_limit_enquiry_request_packet : PacketClass
hard_limit_enquiry_request_packet =
    packet "HardLimitEnquiryRequest" (some (codes "HardLimitEnquiryRequest"))
      (right_field "TargetVirtualServerNo" (some (replicate 6 b'0')) 6 ∷ [])

-- `HardLimitEnquiryResponse`
abbrev pub hard_limit_enquiry_response_packet : PacketClass
hard_limit_enquiry_response_packet =
    packet "HardLimitEnquiryResponse" (some (codes "HardLimitEnquiryRequest")) (
      right_field "TargetVirtualServerNo" none 6
      ∷ char_field "SuspensionStatus" (some (codes " "))
          ((codes "1", codes "Suspending") ∷ (codes "0", codes "NotSuspending") ∷ [])
      ∷ price_field "OrderLimit" none 15 4
      ∷ price_field "CumulativeOrderLimit" none 15 4
      ∷ int_field "CumulativeOrderInterval" none 5
      ∷ price_field "CumulativeOrderLast" none 15 4
      ∷ time_field9 "CumulativeOrderStartTime" none
      ∷ int_field "CumulativeOrderFirstSeqNo" none 8
      ∷ int_field "CumulativeOrderLastSeqNo" none 8
      ∷ price_field "CumulativeExecutionLimit" none 15 4
      ∷ int_field "CumulativeExectutionInterval" none 5
      ∷ price_field "CumulativeExecutionLast" none 15 4
      ∷ time_field9 "CumulativeExecutionStartTime" none
      ∷ int_field "CumulativeExecutionFirstSeqNo" none 8
      ∷ int_field "CumulativeExecutionLastSeqNo" none 8
      ∷ [])

-- `HardLimitEnquiryErrorResponse`
abbrev pub hard_limit_enquiry_error_response_packet : PacketClass
hard_limit_enquiry_error_response_packet =
    subclass "HardLimitEnquiryErrorResponse" (some (codes "HardLimitEnquiryErrorResponse"))
      hard_limit_enquiry_response_packet

-- `SystemError`
abbrev pub system_error_packet : PacketClass
system_error_packet =
    packet "SystemError" (some (codes "SystemError"))
      (str_field "ReceivedData" (some (replicate 200 32)) 200 ∷ [])

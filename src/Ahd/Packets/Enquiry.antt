-- ===== src/Ahd/Packets/Enquiry.antt =====
-- The packet classes of common/ahd_msg.py for enquiries and suspension: the fields in their order, with their defaults.
use auto_test_poc.Base.{[], ◌∷◌, none, some, replicate}
use auto_test_poc.Py.Text.{codes}
use auto_test_poc.Ahd.Fields.{PacketClass, int_field, packet, right_field, subclass}

-- `OrderSeqNoEnquiryRequest`
abbrev pub order_seq_no_enquiry_request_packet : PacketClass
order_seq_no_enquiry_request_packet =
    packet "OrderSeqNoEnquiryRequest" (some (codes "OrderSeqNoEnquiryRequest"))
      (right_field "VirtualServerNo" none 6 ∷ [])

-- `OrderSeqNoEnquiryResponse`
abbrev pub order_seq_no_enquiry_response_packet : PacketClass
order_seq_no_enquiry_response_packet =
    packet "OrderSeqNoEnquiryResponse" (some (codes "OrderSeqNoEnquiryResponse")) (
      right_field "VirtualServerNo" none 6
      ∷ int_field "LastSeqNo" none 8
      ∷ int_field "LastOrderClassification" (some (codes "0")) 1
      ∷ [])

-- `OrderSeqNoEnquiryErrorResponse`
abbrev pub order_seq_no_enquiry_error_response_packet : PacketClass
order_seq_no_enquiry_error_response_packet =
    subclass "OrderSeqNoEnquiryErrorResponse" (some (codes "OrderSeqNoEnquiryErrorResponse"))
      order_seq_no_enquiry_response_packet

-- `NoticeSeqNoEnquiryRequest`
abbrev pub notice_seq_no_enquiry_request_packet : PacketClass
notice_seq_no_enquiry_request_packet =
    subclass "NoticeSeqNoEnquiryRequest" (some (codes "NoticeSeqNoEnquiryRequest"))
      order_seq_no_enquiry_request_packet

-- `NoticeSeqNoEnquiryResponse`
abbrev pub notice_seq_no_enquiry_response_packet : PacketClass
notice_seq_no_enquiry_response_packet =
    packet "NoticeSeqNoEnquiryResponse" (some (codes "NoticeSeqNoEnquiryResponse")) (
      right_field "VirtualServerNo" none 6
      ∷ int_field "AcceptanceSeqNo" none 8
      ∷ int_field "ExecutionSeqNo" none 8
      ∷ [])

-- `NoticeSeqNoEnquiryErrorResponse`
abbrev pub notice_seq_no_enquiry_error_response_packet : PacketClass
notice_seq_no_enquiry_error_response_packet =
    subclass "NoticeSeqNoEnquiryErrorResponse" (some (codes "NoticeSeqNoEnquiryErrorResponse"))
      notice_seq_no_enquiry_response_packet

-- `OrderSuspensionRequest`
abbrev pub order_suspension_request_packet : PacketClass
order_suspension_request_packet =
    packet "OrderSuspensionRequest" (some (codes "OrderSuspensionRequest"))
      (right_field "TargetVirtualServerNo" none 6 ∷ [])

-- `OrderSuspensionResponse`
abbrev pub order_suspension_response_packet : PacketClass
order_suspension_response_packet =
    subclass "OrderSuspensionResponse" (some (codes "OrderSuspensionResponse"))
      order_suspension_request_packet

-- `OrderSuspensionErrorResponse`
abbrev pub order_suspension_error_response_packet : PacketClass
order_suspension_error_response_packet =
    subclass "OrderSuspensionErrorResponse" (some (codes "OrderSuspensionErrorResponse"))
      order_suspension_response_packet

-- `OrderSuspensionReleaseRequest`
abbrev pub order_suspension_release_request_packet : PacketClass
order_suspension_release_request_packet =
    packet "OrderSuspensionReleaseRequest" (some (codes "OrderSuspensionReleaseRequest"))
      (right_field "TargetVirtualServerNo" (some (replicate 6 b'0')) 6 ∷ [])

-- `OrderSuspensionReleaseResponse`
abbrev pub order_suspension_release_response_packet : PacketClass
order_suspension_release_response_packet =
    subclass "OrderSuspensionReleaseResponse" (some (codes "OrderSuspensionReleaseResponse"))
      order_suspension_release_request_packet

-- `OrderSuspensionReleaseErrorResponse`
abbrev pub order_suspension_release_error_response_packet : PacketClass
order_suspension_release_error_response_packet =
    subclass "OrderSuspensionReleaseErrorResponse"
      (some (codes "OrderSuspensionReleaseErrorResponse")) order_suspension_release_response_packet

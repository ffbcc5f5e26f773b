-- ===== src/Ahd/Packets/Operation.antt =====
-- The packet classes of common/ahd_msg.py for operation: the fields in their order, with their defaults.
use auto_test_poc.Base.{[], ◌∷◌, none, some, replicate}
use auto_test_poc.Py.Text.{codes}
use auto_test_poc.Ahd.Fields.{PacketClass, int_field, packet, right_field, str_field, subclass}

-- `OpStart`
abbrev pub op_start_packet : PacketClass
op_start_packet = packet "OpStart" (some (codes "OpStart")) (
    int_field "AcceptanceSeqNo" none 8
    ∷ int_field "ExecutionSeqNo" none 8
    ∷ right_field "ProxySourceVirtualServerNo1" none 6
    ∷ int_field "ProxySourceAcceptanceSeqNo1" none 8
    ∷ int_field "ProxySourceExecutionSeqNo1" none 8
    ∷ right_field "ProxySourceVirtualServerNo2" none 6
    ∷ int_field "ProxySourceAcceptanceSeqNo2" none 8
    ∷ int_field "ProxySourceExecutionSeqNo2" none 8
    ∷ right_field "ProxySourceVirtualServerNo3" none 6
    ∷ int_field "ProxySourceAcceptanceSeqNo3" none 8
    ∷ int_field "ProxySourceExecutionSeqNo3" none 8
    ∷ [])

-- `OpStartResponse`
abbrev pub op_start_response_packet : PacketClass
op_start_response_packet = packet "OpStartResponse" (some (codes "OpStartResponse")) (
    int_field "AcceptanceSeqNo" none 8
    ∷ int_field "ExecutionSeqNo" none 8
    ∷ int_field "OrderEntrySeqNo" none 8
    ∷ right_field "ProxySourceVirtualServerNo1" none 6
    ∷ int_field "ProxySourceAcceptanceSeqNo1" none 8
    ∷ int_field "ProxySourceExecutionSeqNo1" none 8
    ∷ right_field "ProxySourceVirtualServerNo2" none 6
    ∷ int_field "ProxySourceAcceptanceSeqNo2" none 8
    ∷ int_field "ProxySourceExecutionSeqNo2" none 8
    ∷ right_field "ProxySourceVirtualServerNo3" none 6
    ∷ int_field "ProxySourceAcceptanceSeqNo3" none 8
    ∷ int_field "ProxySourceExecutionSeqNo3" none 8
    ∷ [])

-- `OpStartErrorResponse`
abbrev pub op_start_error_response_packet : PacketClass
op_start_error_response_packet =
    subclass "OpStartErrorResponse" (some (codes "OpStartErrorResponse")) op_start_response_packet

-- `OpEnd`
abbrev pub op_end_packet : PacketClass
op_end_packet = packet "OpEnd" (some (codes "OpEnd")) ([])

-- `OpEndResponse`
abbrev pub op_end_response_packet : PacketClass
op_end_response_packet = packet "OpEndResponse" (some (codes "OpEndResponse")) ([])

-- `OpEndErrorResponse`
abbrev pub op_end_error_response_packet : PacketClass
op_end_error_response_packet =
    subclass "OpEndErrorResponse" (some (codes "OpEndErrorResponse")) op_end_response_packet

-- `NoticeDestSetupRequest`
abbrev pub notice_dest_setup_request_packet : PacketClass
notice_dest_setup_request_packet =
    packet "NoticeDestSetupRequest" (some (codes "NoticeDestSetupRequest"))
      (right_field "VirtualServerNo" none 6 ∷ str_field "Reserved" (some (replicate 6 32)) 6 ∷ [])

-- `NoticeDestSetupResponse`
abbrev pub notice_dest_setup_response_packet : PacketClass
notice_dest_setup_response_packet =
    subclass "NoticeDestSetupResponse" (some (codes "NoticeDestSetupResponse"))
      notice_dest_setup_request_packet

-- `NoticeDestSetupErrorResponse`
abbrev pub notice_dest_setup_error_response_packet : PacketClass
notice_dest_setup_error_response_packet =
    subclass "NoticeDestSetupErrorResponse" (some (codes "NoticeDestSetupErrorResponse"))
      notice_dest_setup_response_packet

-- `NoticeDestEnqRequest`
abbrev pub notice_dest_enq_request_packet : PacketClass
notice_dest_enq_request_packet =
    packet "NoticeDestEnqRequest" (some (codes "NoticeDestEnqRequest"))
      (str_field "EnquiryTarget" (some (codes "0")) 1 ∷ right_field "VirtualServerNo" none 6 ∷ [])

-- `NoticeDestEnqResponse`
abbrev pub notice_dest_enq_response_packet : PacketClass
notice_dest_enq_response_packet =
    packet "NoticeDestEnqResponse" (some (codes "NoticeDestEnqResponse")) (
      str_field "EnquiryTarget" (some (codes "0")) 1
      ∷ right_field "VirtualServerNo1" none 6
      ∷ right_field "VirtualServerNo2" none 6
      ∷ right_field "VirtualServerNo3" none 6
      ∷ [])

-- `NoticeDestEnqErrorResponse`
abbrev pub notice_dest_enq_error_response_packet : PacketClass
notice_dest_enq_error_response_packet =
    subclass "NoticeDestEnqErrorResponse" (some (codes "NoticeDestEnqErrorResponse"))
      notice_dest_enq_response_packet

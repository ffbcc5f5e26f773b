-- ===== src/Ahd/Packets/Proxy.antt =====
-- The packet classes of common/ahd_msg.py for proxies and retransmission: the fields in their order, with their defaults.
use auto_test_poc.Base.{[], ◌∷◌, none, some}
use auto_test_poc.Py.Text.{codes}
use auto_test_poc.Ahd.Fields.{PacketClass, int_field, packet, right_field, str_field, subclass}
use auto_test_poc.Ahd.Packets.Operation.{
  notice_dest_enq_request_packet, notice_dest_enq_response_packet,
}

-- `ProxyRequest`
abbrev pub proxy_request_packet : PacketClass
proxy_request_packet = packet "ProxyRequest" (some (codes "ProxyRequest")) (
    right_field "ProxySrcVirtualServerNo" none 6
    ∷ right_field "ProxyDestVirtualServerNo" none 6
    ∷ int_field "AcceptanceSeqNo" none 8
    ∷ int_field "ExecutionSeqNo" none 8
    ∷ [])

-- `ProxyResponse`
abbrev pub proxy_response_packet : PacketClass
proxy_response_packet = subclass "ProxyResponse" (some (codes "ProxyResponse")) proxy_request_packet

-- `ProxyErrorResponse`
abbrev pub proxy_error_response_packet : PacketClass
proxy_error_response_packet =
    subclass "ProxyErrorResponse" (some (codes "ProxyErrorResponse")) proxy_response_packet

-- `ProxyAbortRequest`
abbrev pub proxy_abort_request_packet : PacketClass
proxy_abort_request_packet =
    packet "ProxyAbortRequest" (some (codes "ProxyAbortRequest"))
      (right_field "ProxySrcVirtualServerNo" none 6 ∷ [])

-- `ProxyAbortResponse`
abbrev pub proxy_abort_response_packet : PacketClass
proxy_abort_response_packet =
    subclass "ProxyAbortResponse" (some (codes "ProxyAbortResponse")) proxy_abort_request_packet

-- `ProxyAbortErrorResponse`
abbrev pub proxy_abort_error_response_packet : PacketClass
proxy_abort_error_response_packet =
    subclass "ProxyAbortErrorResponse" (some (codes "ProxyAbortErrorResponse"))
      proxy_abort_response_packet

-- `ProxyStatusEnqRequest`
abbrev pub proxy_status_enq_request_packet : PacketClass
proxy_status_enq_request_packet =
    subclass "ProxyStatusEnqRequest" (some (codes "ProxyStatusEnqRequest"))
      notice_dest_enq_request_packet

-- `ProxyStatusEnqResponse`
abbrev pub proxy_status_enq_response_packet : PacketClass
proxy_status_enq_response_packet =
    subclass "ProxyStatusEnqResponse" (some (codes "ProxyStatusEnqResponse"))
      notice_dest_enq_response_packet

-- `ProxyStatusEnqErrorResponse`
abbrev pub proxy_status_enq_error_response_packet : PacketClass
proxy_status_enq_error_response_packet =
    subclass "ProxyStatusEnqErrorResponse" (some (codes "ProxyStatusEnqErrorResponse"))
      notice_dest_enq_response_packet

-- `RetransmissionRequest`
abbrev pub retransmission_request_packet : PacketClass
retransmission_request_packet =
    packet "RetransmissionRequest" (some (codes "RetransmissionRequest")) (
      right_field "VirtualServerNo" none 6
      ∷ str_field "NoticeType" (some (codes "0")) 1
      ∷ int_field "StartSeqNo" none 8
      ∷ int_field "EndSeqNo" none 8
      ∷ [])

-- `RetransmissionResponse`
abbrev pub retransmission_response_packet : PacketClass
retransmission_response_packet =
    subclass "RetransmissionResponse" (some (codes "RetransmissionResponse"))
      retransmission_request_packet

-- `RetransmissionErrorResponse`
abbrev pub retransmission_error_response_packet : PacketClass
retransmission_error_response_packet =
    subclass "RetransmissionErrorResponse" (some (codes "RetransmissionErrorResponse"))
      retransmission_response_packet

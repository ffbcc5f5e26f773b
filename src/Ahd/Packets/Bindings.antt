-- ===== src/Ahd/Packets/Bindings.antt =====
-- The bindings of layers of common/ahd_msg.py: the lower class, the upper class and the code that selects it.
use auto_test_poc.Base.{List, [], ◌∷◌}
use auto_test_poc.Py.Text.{Text, codes}
use auto_test_poc.Ahd.Fields.{PacketClass}
use auto_test_poc.Ahd.Packets.Admin.{
  admin_common_dd_packet, admin_common_du_packet, admin_common_od_packet, admin_common_ou_packet,
  admin_common_qd_packet, admin_common_qu_packet, free_form_warning_packet, market_admin_packet,
  price_limit_info_packet, trading_halt_packet,
}
use auto_test_poc.Ahd.Packets.Enquiry.{
  notice_seq_no_enquiry_error_response_packet, notice_seq_no_enquiry_request_packet,
  notice_seq_no_enquiry_response_packet, order_seq_no_enquiry_error_response_packet,
  order_seq_no_enquiry_request_packet, order_seq_no_enquiry_response_packet,
  order_suspension_error_response_packet, order_suspension_release_error_response_packet,
  order_suspension_release_request_packet, order_suspension_request_packet,
}
use auto_test_poc.Ahd.Packets.Esp.{
  esp_common_packet, heartbeat_packet, login_request_packet, login_response_packet,
  logout_request_packet, logout_response_packet, pre_logout_request_packet,
  pre_logout_response_packet, reject_packet, resend_request_packet, skip_packet,
}
use auto_test_poc.Ahd.Packets.Limits.{
  hard_limit_enquiry_error_response_packet, hard_limit_enquiry_request_packet,
  hard_limit_setup_error_response_packet, hard_limit_setup_request_packet, system_error_packet,
}
use auto_test_poc.Ahd.Packets.Notices.{
  cancel_order_acceptance_error_packet, cancel_order_acceptance_notice_packet,
  cancel_order_registration_error_packet, modification_order_acceptance_error_packet,
  modification_order_acceptance_notice_packet, modification_order_registration_error_packet,
  modification_order_result_notice_packet, new_order_acceptance_error_packet,
  new_order_acceptance_notice_packet, new_order_registration_error_packet, notice_common_d_packet,
  notice_common_o_packet, notice_common_q_packet,
}
use auto_test_poc.Ahd.Packets.Operation.{
  notice_dest_enq_error_response_packet, notice_dest_enq_request_packet,
  notice_dest_enq_response_packet, notice_dest_setup_error_response_packet,
  notice_dest_setup_request_packet, notice_dest_setup_response_packet, op_end_error_response_packet,
  op_end_packet, op_end_response_packet, op_start_error_response_packet, op_start_packet,
  op_start_response_packet,
}
use auto_test_poc.Ahd.Packets.Orders.{
  cancel_order_by_acceptance_no_packet, cancel_order_by_internal_packet,
  modification_order_by_acceptance_no_packet, modification_order_by_internal_packet,
  new_order_packet, order_common_d_packet, order_common_o_packet, order_common_q_packet,
}
use auto_test_poc.Ahd.Packets.Proxy.{
  proxy_abort_error_response_packet, proxy_abort_request_packet, proxy_abort_response_packet,
  proxy_error_response_packet, proxy_request_packet, proxy_response_packet,
  proxy_status_enq_error_response_packet, proxy_status_enq_request_packet,
  proxy_status_enq_response_packet, retransmission_error_response_packet,
  retransmission_request_packet, retransmission_response_packet,
}
use auto_test_poc.Ahd.Packets.Results.{
  acceptance_output_completion_notice_packet, cancel_order_result_notice_packet,
  execution_completion_notice_packet, execution_output_completion_notice_packet,
  invalidation_result_notice_packet,
}

abbrev pub Binding : Type 0
Binding = PacketClass × PacketClass × Text

-- `bind_layers` of the session layer, by `MessageType`
abbrev pub esp_bindings : List Binding
esp_bindings =
    (esp_common_packet, login_request_packet, codes "01")
    ∷ (esp_common_packet, login_response_packet, codes "11")
    ∷ (esp_common_packet, pre_logout_request_packet, codes "02")
    ∷ (esp_common_packet, pre_logout_response_packet, codes "12")
    ∷ (esp_common_packet, logout_request_packet, codes "13")
    ∷ (esp_common_packet, logout_request_packet, codes "03")
    ∷ (esp_common_packet, logout_response_packet, codes "14")
    ∷ (esp_common_packet, logout_response_packet, codes "04")
    ∷ (esp_common_packet, heartbeat_packet, codes "15")
    ∷ (esp_common_packet, heartbeat_packet, codes "05")
    ∷ (esp_common_packet, resend_request_packet, codes "16")
    ∷ (esp_common_packet, resend_request_packet, codes "06")
    ∷ (esp_common_packet, skip_packet, codes "17")
    ∷ (esp_common_packet, skip_packet, codes "07")
    ∷ (esp_common_packet, reject_packet, codes "18")
    ∷ (esp_common_packet, reject_packet, codes "08")
    ∷ (esp_common_packet, order_common_o_packet, codes "40")
    ∷ (esp_common_packet, order_common_q_packet, codes "41")
    ∷ (esp_common_packet, order_common_d_packet, codes "42")
    ∷ (esp_common_packet, notice_common_o_packet, codes "50")
    ∷ (esp_common_packet, notice_common_q_packet, codes "51")
    ∷ (esp_common_packet, notice_common_d_packet, codes "52")
    ∷ (esp_common_packet, admin_common_ou_packet, codes "80")
    ∷ (esp_common_packet, admin_common_od_packet, codes "90")
    ∷ (esp_common_packet, admin_common_qu_packet, codes "81")
    ∷ (esp_common_packet, admin_common_qd_packet, codes "91")
    ∷ (esp_common_packet, admin_common_du_packet, codes "82")
    ∷ (esp_common_packet, admin_common_dd_packet, codes "92")
    ∷ []

-- `bind_layers` of the orders, by `DataCode`
abbrev pub order_bindings : List Binding
order_bindings =
    (order_common_o_packet, new_order_packet, codes "1111")
    ∷ (order_common_o_packet, modification_order_by_acceptance_no_packet, codes "5131")
    ∷ (order_common_o_packet, modification_order_by_internal_packet, codes "9132")
    ∷ (order_common_o_packet, cancel_order_by_acceptance_no_packet, codes "3121")
    ∷ (order_common_o_packet, cancel_order_by_internal_packet, codes "7122")
    ∷ []

-- `bind_layers` of the notices, by `DataCode`
abbrev pub notice_bindings : List Binding
notice_bindings =
    (notice_common_o_packet, new_order_acceptance_notice_packet, codes "A111")
    ∷ (notice_common_o_packet, modification_order_acceptance_notice_packet, codes "B131")
    ∷ (notice_common_o_packet, cancel_order_acceptance_notice_packet, codes "B121")
    ∷ (notice_common_o_packet, new_order_acceptance_error_packet, codes "C119")
    ∷ (notice_common_o_packet, modification_order_acceptance_error_packet, codes "D139")
    ∷ (notice_common_o_packet, cancel_order_acceptance_error_packet, codes "D129")
    ∷ (notice_common_o_packet, acceptance_output_completion_notice_packet, codes "A191")
    ∷ (notice_common_o_packet, execution_completion_notice_packet, codes "J211")
    ∷ (notice_common_o_packet, modification_order_result_notice_packet, codes "F231")
    ∷ (notice_common_o_packet, cancel_order_result_notice_packet, codes "F221")
    ∷ (notice_common_o_packet, new_order_registration_error_packet, codes "K219")
    ∷ (notice_common_o_packet, modification_order_registration_error_packet, codes "K239")
    ∷ (notice_common_o_packet, cancel_order_registration_error_packet, codes "K229")
    ∷ (notice_common_o_packet, invalidation_result_notice_packet, codes "K241")
    ∷ (notice_common_o_packet, execution_output_completion_notice_packet, codes "J291")
    ∷ []

-- `bind_layers` of the administration that is announced, by `DataCode`
abbrev pub admin_notice_bindings : List Binding
admin_notice_bindings =
    (admin_common_od_packet, market_admin_packet, codes "T111")
    ∷ (admin_common_od_packet, trading_halt_packet, codes "T311")
    ∷ (admin_common_od_packet, price_limit_info_packet, codes "T321")
    ∷ (admin_common_od_packet, free_form_warning_packet, codes "T331")
    ∷ []

-- `bind_layers` of the requests of administration, by `DataCode`
abbrev pub admin_request_bindings : List Binding
admin_request_bindings =
    (admin_common_ou_packet, op_start_packet, codes "6211")
    ∷ (admin_common_ou_packet, op_end_packet, codes "6221")
    ∷ (admin_common_ou_packet, retransmission_request_packet, codes "6231")
    ∷ (admin_common_ou_packet, proxy_request_packet, codes "6241")
    ∷ (admin_common_ou_packet, proxy_abort_request_packet, codes "6251")
    ∷ (admin_common_ou_packet, proxy_status_enq_request_packet, codes "6261")
    ∷ (admin_common_ou_packet, order_seq_no_enquiry_request_packet, codes "6271")
    ∷ (admin_common_ou_packet, notice_seq_no_enquiry_request_packet, codes "6281")
    ∷ (admin_common_ou_packet, notice_dest_setup_request_packet, codes "6291")
    ∷ (admin_common_ou_packet, notice_dest_enq_request_packet, codes "62A1")
    ∷ []

-- `bind_layers` of the answers of administration, and suspension and limits, by `DataCode`
abbrev pub admin_answer_bindings : List Binding
admin_answer_bindings =
    (admin_common_od_packet, op_start_response_packet, codes "T211")
    ∷ (admin_common_od_packet, op_start_error_response_packet, codes "T219")
    ∷ (admin_common_od_packet, op_end_response_packet, codes "T221")
    ∷ (admin_common_od_packet, op_end_error_response_packet, codes "T229")
    ∷ (admin_common_od_packet, retransmission_response_packet, codes "T231")
    ∷ (admin_common_od_packet, retransmission_error_response_packet, codes "T239")
    ∷ (admin_common_od_packet, proxy_response_packet, codes "T241")
    ∷ (admin_common_od_packet, proxy_error_response_packet, codes "T249")
    ∷ (admin_common_od_packet, proxy_abort_response_packet, codes "T251")
    ∷ (admin_common_od_packet, proxy_abort_error_response_packet, codes "T259")
    ∷ (admin_common_od_packet, proxy_status_enq_response_packet, codes "T261")
    ∷ (admin_common_od_packet, proxy_status_enq_error_response_packet, codes "T269")
    ∷ (admin_common_od_packet, order_seq_no_enquiry_response_packet, codes "T271")
    ∷ (admin_common_od_packet, order_seq_no_enquiry_error_response_packet, codes "T279")
    ∷ (admin_common_od_packet, notice_seq_no_enquiry_response_packet, codes "T281")
    ∷ (admin_common_od_packet, notice_seq_no_enquiry_error_response_packet, codes "T289")
    ∷ (admin_common_od_packet, notice_dest_setup_response_packet, codes "T291")
    ∷ (admin_common_od_packet, notice_dest_setup_error_response_packet, codes "T299")
    ∷ (admin_common_od_packet, notice_dest_enq_response_packet, codes "T2A1")
    ∷ (admin_common_od_packet, notice_dest_enq_error_response_packet, codes "T2A9")
    ∷ (admin_common_od_packet, order_suspension_request_packet, codes "62B1")
    ∷ (admin_common_od_packet, order_suspension_error_response_packet, codes "T2B1")
    ∷ (admin_common_od_packet, order_suspension_release_request_packet, codes "62C1")
    ∷ (admin_common_od_packet, order_suspension_release_error_response_packet, codes "T2C1")
    ∷ (admin_common_od_packet, hard_limit_setup_request_packet, codes "62D1")
    ∷ (admin_common_od_packet, hard_limit_setup_error_response_packet, codes "T2D1")
    ∷ (admin_common_od_packet, hard_limit_enquiry_request_packet, codes "62E1")
    ∷ (admin_common_od_packet, hard_limit_enquiry_error_response_packet, codes "T2E1")
    ∷ (admin_common_od_packet, system_error_packet, codes "T999")
    ∷ []

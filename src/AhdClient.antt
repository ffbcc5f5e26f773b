-- ===== src/AhdClient.antt =====
-- The client of the exchange in common/ahd_cli.py: its state.
pub mod Internal
pub mod Receive
pub mod Prepare
pub mod Session
use auto_test_poc.Base.{Bool, List, Option}
use auto_test_poc.Base.Int.{ℤ}
use auto_test_poc.Py.Text.{Text}

-- A received packet: the fields of ESPCommon that the client reads, the classes of its layers, and, where
-- it has the layer NoticeCommonO, the class of the layer above that and the number NoticeSeqNo.
pub record Incoming : Type 0 where
  pub message_length : Option ℤ
  pub seq_no : Option ℤ
  pub arm_sn : Option ℤ
  pub sam_sn : Option ℤ
  pub layers : List Text
  pub notice : Option (Text × Option ℤ)

-- The attributes of `AHDClient` that its methods change, and those that they write into packets.
pub record AhdClient : Type 0 where
  pub participant_code : Text
  pub virtual_server_no : Text
  pub exchange_code : Text
  pub market_code : Text
  pub handle_heartbeats : Bool
  pub heartbeats_allowed : Bool
  pub last_sent_internal : Text
  pub last_sent_order_entry_seq_no : Option ℤ
  pub last_sent_seq_no : Option ℤ
  pub last_sent_arm_sn : Option ℤ
  pub last_sent_sam_sn : Option ℤ
  pub last_rcvd_seq_no : Option ℤ
  pub last_rcvd_arm_sn : Option ℤ
  pub last_rcvd_sam_sn : Option ℤ
  pub last_rcvd_notice_seq_no : Option ℤ
  pub last_rcvd_execution_seq_no : Option ℤ
  pub send_queue : List Text
  pub receive_queue : List Incoming

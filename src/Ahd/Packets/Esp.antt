-- ===== src/Ahd/Packets/Esp.antt =====
-- The packet classes of common/ahd_msg.py for the session layer: the fields in their order, with their defaults.
use auto_test_poc.Base.{[], ◌∷◌, none, some, replicate}
use auto_test_poc.Py.Text.{codes}
use auto_test_poc.Ahd.Fields.{
  PacketClass, char_field, date_field, int_field, packet, right_field, str_field, subclass,
  time_field12,
}

-- `ESPCommon`
abbrev pub esp_common_packet : PacketClass
esp_common_packet = packet "ESPCommon" (some (codes "ESPCommon")) (
    int_field "MessageLength" none 5
    ∷ str_field "MessageType" (some (codes "  ")) 2
    ∷ int_field "SeqNo" none 8
    ∷ char_field "ResendFlag" (some (codes "0"))
        ((codes "0", codes "Normal") ∷ (codes "1", codes "Resent") ∷ [])
    ∷ right_field "ParticipantCode" none 5
    ∷ right_field "VirtualServerNo" none 6
    ∷ int_field "ARMSN" none 8
    ∷ int_field "SAMSN" none 8
    ∷ int_field "DataAreaLength" none 5
    ∷ int_field "NumberOfDataTransactions" (some (codes "1")) 3
    ∷ date_field "TransmissionDate" none
    ∷ time_field12 "TransmissionTime" none
    ∷ str_field "Reserved" (some (codes " ")) 1
    ∷ [])

-- `ESPBlankData`
abbrev pub esp_blank_data_packet : PacketClass
esp_blank_data_packet =
    packet "ESPBlankData" (some (codes "ESPBlankData"))
      (str_field "Reserved" (some (replicate 16 32)) 16 ∷ [])

-- `LoginRequest`
abbrev pub login_request_packet : PacketClass
login_request_packet = subclass "LoginRequest" (some (codes "LoginRequest")) esp_blank_data_packet

-- `LoginResponse`
abbrev pub login_response_packet : PacketClass
login_response_packet =
    subclass "LoginResponse" (some (codes "LoginResponse")) esp_blank_data_packet

-- `PreLogoutRequest`
abbrev pub pre_logout_request_packet : PacketClass
pre_logout_request_packet =
    subclass "PreLogoutRequest" (some (codes "PreLogoutRequest")) esp_blank_data_packet

-- `PreLogoutResponse`
abbrev pub pre_logout_response_packet : PacketClass
pre_logout_response_packet =
    subclass "PreLogoutResponse" (some (codes "PreLogoutResponse")) esp_blank_data_packet

-- `LogoutRequest`
abbrev pub logout_request_packet : PacketClass
logout_request_packet = packet "LogoutRequest" (some (codes "LogoutRequest")) (
    str_field "LogoutReason" (some (codes "0000")) 4
    ∷ str_field "Reserved" (some (replicate 12 32)) 12
    ∷ [])

-- `LogoutResponse`
abbrev pub logout_response_packet : PacketClass
logout_response_packet =
    subclass "LogoutResponse" (some (codes "LogoutResponse")) esp_blank_data_packet

-- `Heartbeat`
abbrev pub heartbeat_packet : PacketClass
heartbeat_packet = subclass "Heartbeat" (some (codes "Heartbeat")) esp_blank_data_packet

-- `ResendRequest`
abbrev pub resend_request_packet : PacketClass
resend_request_packet =
    packet "ResendRequest" (some (codes "ResendRequest"))
      (int_field "ResendStartSeqNo" none 8 ∷ str_field "Reserved" (some (replicate 8 32)) 8 ∷ [])

-- `Skip`
abbrev pub skip_packet : PacketClass
skip_packet =
    packet "Skip" (some (codes "Skip"))
      (int_field "SkipSeqNo" none 8 ∷ str_field "Reserved" (some (replicate 8 32)) 8 ∷ [])

-- `Reject`
abbrev pub reject_packet : PacketClass
reject_packet = packet "Reject" (some (codes "Reject")) (
    int_field "RejectSeqNo" none 8
    ∷ str_field "RejectMessageType" (some (codes "  ")) 2
    ∷ str_field "RejectReasonCode" (some (codes "    ")) 4
    ∷ str_field "Reserved" (some (codes "  ")) 2
    ∷ [])

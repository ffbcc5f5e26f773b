-- ===== src/Ahd/MessageCodes.antt =====
-- The enumerations of common/ahd_msg.py of messages and of reasons: the members in their order, with their values.
use auto_test_poc.Base.{List, [], ◌∷◌}
use auto_test_poc.Py.Text.{Text, codes}

-- `ESPMsgTypeUp`
abbrev pub esp_msg_type_up_members : List (Text × Text)
esp_msg_type_up_members =
    (codes "LOGIN_REQUEST", codes "01")
    ∷ (codes "PRE_LOGOUT_REQUEST", codes "02")
    ∷ (codes "LOGOUT_REQUEST", codes "03")
    ∷ (codes "LOGOUT_RESPONSE", codes "04")
    ∷ (codes "HEARTBEAT", codes "05")
    ∷ (codes "RESEND_REQUEST", codes "06")
    ∷ (codes "SKIP", codes "07")
    ∷ (codes "REJECT", codes "08")
    ∷ (codes "QUERY_OP", codes "41")
    ∷ (codes "QUERY_ADM", codes "81")
    ∷ (codes "DC_OP", codes "42")
    ∷ (codes "DC_ADM", codes "82")
    ∷ []

-- `MsgType`
abbrev pub msg_type_members : List (Text × Text)
msg_type_members =
    (codes "LOGIN_REQUEST", codes "01")
    ∷ (codes "PRE_LOGOUT_REQUEST", codes "02")
    ∷ (codes "LOGOUT_REQUEST", codes "03")
    ∷ (codes "LOGOUT_RESPONSE", codes "04")
    ∷ (codes "HEARTBEAT", codes "05")
    ∷ (codes "RESEND_REQUEST", codes "06")
    ∷ (codes "SKIP", codes "07")
    ∷ (codes "REJECT", codes "08")
    ∷ (codes "MARKET_ADMIN", codes "90")
    ∷ (codes "TRADING_HALT", codes "90")
    ∷ (codes "PRICE_LIMIT_INFO", codes "90")
    ∷ (codes "FREE_FORM_WARNING", codes "90")
    ∷ (codes "OP_START", codes "80")
    ∷ (codes "OP_START_RESPONSE", codes "90")
    ∷ (codes "OP_END", codes "80")
    ∷ (codes "OP_END_RESPONSE", codes "90")
    ∷ (codes "ADMIN_COMMON", codes "80")
    ∷ (codes "NOTICE_DEST_SETUP_REQUEST", codes "80")
    ∷ (codes "NOTICE_DEST_SETUP_RESPONSE", codes "90")
    ∷ (codes "NOTICE_DEST_ENQ_REQUEST", codes "80")
    ∷ (codes "NOTICE_DEST_ENQ_RESPONSE", codes "90")
    ∷ (codes "PROXY_REQUEST", codes "80")
    ∷ (codes "PROXY_RESPONSE", codes "90")
    ∷ (codes "PROXY_ABORT_REQUEST", codes "80")
    ∷ (codes "PROXY_ABORT_RESPONSE", codes "90")
    ∷ (codes "PROXY_STATUS_ENQ_REQUEST", codes "80")
    ∷ (codes "PROXY_STATUS_ENQ_RESPONSE", codes "90")
    ∷ (codes "RETRANSMISSION_REQUEST", codes "80")
    ∷ (codes "RETRANSMISSION_RESPONSE", codes "90")
    ∷ (codes "ORD_SEQ_NUM_ENQ", codes "80")
    ∷ (codes "ORD_SEQ_NUM_ENQ_RESPONSE", codes "90")
    ∷ (codes "NOTICE_SEQ_NUM_ENQ", codes "80")
    ∷ (codes "NOTICE_SEQ_NUM_ENQ_RESPONSE", codes "90")
    ∷ (codes "SYSTEM_ERROR", codes "80")
    ∷ (codes "ORDER_COMMON", codes "40")
    ∷ (codes "NEW_ORDER", codes "40")
    ∷ (codes "MOD_ORDER", codes "40")
    ∷ (codes "CANCEL_ORDER", codes "40")
    ∷ (codes "NEW_ORDER_ACCEPTANCE_NOTICE", codes "50")
    ∷ (codes "NEW_ORDER_ACCEPTANCE_ERROR", codes "50")
    ∷ (codes "NEW_ORDER_REGISTRATION_ERROR", codes "50")
    ∷ (codes "MOD_ACCEPTANCE_NOTICE", codes "50")
    ∷ (codes "MOD_ACCEPTANCE_ERROR", codes "50")
    ∷ (codes "MOD_REGISTRATION_ERROR", codes "50")
    ∷ (codes "MOD_RESULT_NOTICE", codes "50")
    ∷ (codes "CANCEL_ORDER_ACCEPTANCE_NOTICE", codes "50")
    ∷ (codes "CANCEL_ORDER_ACCEPTANCE_ERROR", codes "50")
    ∷ (codes "CANCEL_ORDER_REGISTRATION_ERROR", codes "50")
    ∷ (codes "CANCEL_ORDER_RESULT_NOTICE", codes "50")
    ∷ (codes "EXECUTION_COMPLETION_NOTICE", codes "50")
    ∷ (codes "INVALIDATION_RESULT_NOTICE", codes "50")
    ∷ (codes "ACCEPTANCE_OUTPUT_COMPLETION_NOTICE", codes "50")
    ∷ (codes "EXECUTION_OUTPUT_COMPLETION_NOTICE", codes "50")
    ∷ []

-- `ESPMsgTypeDown`
abbrev pub esp_msg_type_down_members : List (Text × Text)
esp_msg_type_down_members =
    (codes "LOGIN_RESPONSE", codes "11")
    ∷ (codes "PRE_LOGOUT_RESPONSE", codes "12")
    ∷ (codes "LOGOUT_REQUEST", codes "13")
    ∷ (codes "LOGOUT_RESPONSE", codes "14")
    ∷ (codes "HEARTBEAT", codes "15")
    ∷ (codes "RESEND_REQUEST", codes "16")
    ∷ (codes "SKIP", codes "17")
    ∷ (codes "REJECT_DOWN", codes "18")
    ∷ (codes "QUERY_OP", codes "51")
    ∷ (codes "QUERY_ADM", codes "91")
    ∷ (codes "DC_OP", codes "52")
    ∷ (codes "DC_ADM", codes "92")
    ∷ []

-- `RejectReason`
abbrev pub reject_reason_members : List (Text × Text)
reject_reason_members =
    (codes "INCORRECT_MESSAGE_TYPE", codes "0001")
    ∷ (codes "INCORRECT_MESSAGE_SEQUENCE_NUMBER", codes "0002")
    ∷ (codes "INCORRECT_PARTICIPANT_CODE", codes "0003")
    ∷ (codes "INCORRECT_VIRTUAL_SERVER_NUMBER", codes "0004")
    ∷ (codes "INCORRECT_RESEND_FLAG", codes "0005")
    ∷ (codes "INCORRECT_RESEND_START_MESSAGE_SEQ_NUM", codes "0006")
    ∷ (codes "MSN_GREATER_THAN_CURRENT_SAMSN", codes "0007")
    ∷ (codes "INCORRECT_ARMSN", codes "0008")
    ∷ (codes "INCORRECT_SAMSN", codes "0009")
    ∷ (codes "INCORRECT_MESSAGE_LENGTH", codes "0010")
    ∷ (codes "INCORRECT_NUM_OF_DATA_TRANSACTION", codes "0011")
    ∷ (codes "INCORRECT_SKIP_MSG_SEQ_NUM", codes "0012")
    ∷ (codes "INCORRECT_FORMAT", codes "0013")
    ∷ []

-- `LogoutReason`
abbrev pub logout_reason_members : List (Text × Text)
logout_reason_members =
    (codes "LOGOUT_REQUEST_IS_VALID", codes "0000")
    ∷ (codes "INCORRECT_MSG_LENGTH", codes "0101")
    ∷ (codes "TIME_OUT_PRE_LOGOUT_RESPONSE_TIMER", codes "0102")
    ∷ (codes "TIME_OUT_LOGOUT_REQUEST_TIMER", codes "0103")
    ∷ (codes "TIME_OUT_HEARTBEAT_RECEIPT_TIMER", codes "0105")
    ∷ (codes "NUMBER_OF_TIMES_OF_RE_RESEND_REQUEST_IS_REACHED", codes "0106")
    ∷ (codes "NUMBER_OF_TIMES_OF_REJECT_MESSAGE_IS_REACHED", codes "0107")
    ∷ (codes "NUMBER_OF_TIMES_SAME_MESSAGE_RECEIVED_REPEATEDLY_IS_REACHED", codes "0108")
    ∷ (codes "ESP_LINK_RELEASED_BY_INSTRUCTIONS_OF_THE_UPPER_LAYER", codes "0109")
    ∷ (codes "SYSTEM_ERROR", codes "0199")
    ∷ []

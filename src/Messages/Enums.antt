-- ===== src/Messages/Enums.antt =====
-- The enumerations of common/fix_msg.py.
pub mod FixVersion
pub mod MsgType
pub mod Field
pub mod Side
pub mod OrdType
pub mod TimeInForce
pub mod ExecType
pub mod OrdStatus

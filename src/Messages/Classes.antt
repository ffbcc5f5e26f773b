-- ===== src/Messages/Classes.antt =====
-- The subclasses of `FixMessage` in common/fix_msg.py.
pub mod Logon
pub mod Logout
pub mod Heartbeat
pub mod TestRequest
pub mod ResendRequest
pub mod SequenceReset
pub mod Reject
pub mod NewOrderSingle
pub mod ExecutionReport
pub mod OrderCancelRequest
pub mod OrderCancelReplaceRequest
pub mod OrderCancelReject

-- ===== src/Orders.antt =====
-- `Order` of common/test_utils.py, and the callbacks of its checker.
pub mod Value
pub mod Kwargs
pub mod State
pub mod Queue
pub mod Handlers
pub mod Events
pub mod Names
pub mod Fills
pub mod History
pub mod Errors
pub mod Moves
pub mod Pending

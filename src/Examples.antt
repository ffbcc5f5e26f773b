-- ===== src/Examples.antt =====
-- Concrete messages, streams, connections and orders on which the theorems are used.
pub mod Wire
pub mod Connection
pub mod Trade
pub mod Messaging
pub mod Field
pub mod Code
pub mod Layout
pub mod Report
pub mod Desk
pub mod Session

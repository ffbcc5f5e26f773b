-- ===== src/Messages.antt =====
-- The messages of common/fix_msg.py.
pub mod Members
pub mod Enums
pub mod Message
pub mod Reading
pub mod Shape
pub mod RoundTrip
pub mod Factory
pub mod Types
pub mod Classes
pub mod Building

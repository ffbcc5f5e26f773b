-- ===== src/Ahd.antt =====
-- The codes of common/ahd_msg.py.
pub mod OrderCodes
pub mod MessageCodes
pub mod Enums
pub mod Inverse
pub mod Fields
pub mod Packets
pub mod PostBuild
pub mod Calendar
pub mod Price

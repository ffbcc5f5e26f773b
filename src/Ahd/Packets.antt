-- ===== src/Ahd/Packets.antt =====
-- The packet classes of common/ahd_msg.py, and the bindings of its layers.
pub mod Esp
pub mod Admin
pub mod Operation
pub mod Proxy
pub mod Enquiry
pub mod Limits
pub mod Orders
pub mod Notices
pub mod Results
pub mod Bindings

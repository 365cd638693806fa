-- ===== src/Crane.antt =====
-- managed_components/crane: the client of the Crane Control Protocol.
pub mod Packet
pub mod Machine
pub mod Action
pub mod Script
pub mod Texts

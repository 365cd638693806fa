-- ===== src/Lownet.antt =====
-- managed_components/lownet: frames, their check sum, sending and receiving.
pub mod Crc
pub mod Frame
pub mod Protocols
pub mod Service
pub mod Start
pub mod Text
pub mod Time
pub mod Keys
pub mod Net
pub mod Send
pub mod Receive

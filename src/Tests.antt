-- ===== src/Tests.antt =====
-- The properties at concrete inputs.
mod Nodes
mod Network
mod Lookups
mod Messages
mod Actions
mod Scripts
mod Sessions
mod Signed
mod Queues
mod Terminal
mod Service
mod Whole

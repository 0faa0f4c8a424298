-- ===== src/Net.antt =====
-- engine/net: what lies between the transport and the simulation.
pub mod Protocol
pub mod Message
pub mod Inbox
pub mod Session

-- ===== src/Protocol.antt =====
-- protocol/Protocol.h and protocol/Protocol.cc: the ground station and the drone, as state machines
-- that answer one message at a time. What both sides share comes first.
pub mod Flow
pub mod Replay
pub mod Credentials
pub mod State
pub mod GroundStation
pub mod Uav
pub mod Peer
pub mod Handshake
pub mod Pairing
pub mod Safety

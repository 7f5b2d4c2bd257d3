-- ===== src/Nodes/Baseline.antt =====
-- The nodes around the protocol objects of the signature baseline.
pub mod Station
pub mod Drone
pub mod Enrollment
pub mod Steps
pub mod Handshake

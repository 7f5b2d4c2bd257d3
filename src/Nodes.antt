-- ===== src/Nodes.antt =====
-- The simulated network: the carrier of messages, the medium, the nodes around the protocol objects and
-- the adversary.
pub mod Carrier
pub mod Medium
pub mod Station
pub mod Drone
pub mod Attacker
pub mod Network
pub mod Baseline

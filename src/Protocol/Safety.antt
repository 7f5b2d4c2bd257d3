-- ===== src/Protocol/Safety.antt =====
-- Protocol.cc: what every message, honest or not, can and cannot make the handlers do.
pub mod Station
pub mod Drone
pub mod Reach
pub mod Rotation
pub mod Resent
pub mod Peers
pub mod Keyed
pub mod Replies

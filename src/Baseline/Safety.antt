-- ===== src/Baseline/Safety.antt =====
-- BaselineSigAuth.cc: what every message, honest or not, can and cannot make the handlers do.
pub mod Station
pub mod Burnt
pub mod Faults
pub mod Drone
pub mod Reach

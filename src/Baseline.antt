-- ===== src/Baseline.antt =====
-- protocol/BaselineSigAuth.h and protocol/BaselineSigAuth.cc: the handshake that is authenticated by
-- signatures, which the simulation compares Phase 2 with.
pub mod State
pub mod GroundStation
pub mod Uav
pub mod Handshake
pub mod Safety

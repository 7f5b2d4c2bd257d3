-- ===== src/Protocol/Pairing.antt =====
-- Protocol.cc, Phase 3 from both sides: what an undisturbed exchange between two drones comes to.
pub mod Terms
pub mod Steps
pub mod Agreement

-- ===== src/Protocol/Handshake.antt =====
-- Protocol.cc, Phase 2 from both sides: what an undisturbed handshake comes to.
pub mod Terms
pub mod Request
pub mod Answer
pub mod Deliver
pub mod Registry
pub mod Agreement

-- ===== src/Crypto.antt =====
-- The cryptographic layer below the protocol: the suite interface, X25519 and the generator.
pub mod Label
pub mod Suite
pub mod Contract
pub mod X25519
pub mod Drbg
pub mod Signature
pub mod Ascon
pub mod Spongent
pub mod Sha3

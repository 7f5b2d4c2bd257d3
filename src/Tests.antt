-- ===== src/Tests.antt =====
-- The theorems at concrete inputs, on small operations in place of the missing libraries.
mod Toy
mod Encoding
mod World
mod Handshake
mod Exchange
mod Messages
mod Pairing
mod Components
mod Rotation
mod Extractor
mod Baseline
mod Ciphers
mod Bch
mod Network
mod Attacks
mod Impersonation
mod Sha3
mod Counting
mod BaselineNodes

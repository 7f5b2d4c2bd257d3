-- ===== src/Fe.antt =====
-- The fuzzy extractor.
pub mod Params
pub mod Codec
pub mod Block
pub mod Extractor
pub mod Reproduce
pub mod Bch

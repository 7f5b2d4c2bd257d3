-- ===== src/Fe/Codec.antt =====
-- fe/BchCodec.h: the codec as the fuzzy extractor calls it. `none` is an exception of the encoder and
-- the result false of the decoder, which otherwise gives the corrected word and the number of errors.
use uav_omnet.Base.{ℕ, Option, Bytes}

pub record BchCodec : Type 0 where
  pub n : ℕ
  pub k : ℕ
  pub encode_codeword : Bytes → Option Bytes
  pub decode_codeword : Bytes → Option (Bytes × ℕ)

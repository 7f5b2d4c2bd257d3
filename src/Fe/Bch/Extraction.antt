-- ===== src/Fe/Bch/Extraction.antt =====
-- fe/FuzzyExtractor.cc over fe/BchCodec.cc: reproduction with the BCH code.
use uav_omnet.Base.{
  ℕ, ◌<◌, ◌≤◌, length, get_elem?, ◌≡◌, ap, ◌⊎◌, inl, inr, true, false, Option, none, some, List, [],
  Bytes, arith,
}
use uav_omnet.Core.{CoreLib}
use uav_omnet.Crypto.Suite.{CryptoSuite}
use uav_omnet.Fe.Params.{FeParams, HelperData, RepResult}
use uav_omnet.Fe.Codec.{BchCodec}
use uav_omnet.Fe.Block.{extract_block}
use uav_omnet.Fe.Extractor.{rep, rep_outer}
use uav_omnet.Fe.Reproduce.{HasBlock, rep_lem}
use uav_omnet.Fe.Bch.{Bch, encode_codeword}
use uav_omnet.Fe.Bch.Decode.{decode_codeword, is_codeword}
use uav_omnet.Fe.Bch.Closed.{decode_codeword_closed}

-- An exception is the result false here.
unfoldable pub decoded : Option (Option (Bytes × ℕ)) → Option (Bytes × ℕ)
decoded none = none
decoded (some result) = result

decoded_sound :
    (d : Option (Option (Bytes × ℕ))) (r : Bytes × ℕ) → decoded d ≡ some r → d ≡ some (some r)
unfolding decoded
decoded_sound none r h = absurd (ground arith)
decoded_sound (some none) r h = absurd (ground arith)
decoded_sound (some (some d)) r h = ap some h

-- The code as the fuzzy extractor calls it.
abbrev pub as_codec : CoreLib → Bch → BchCodec
as_codec lib code = record {
  n = code.n;
  k = code.k;
  encode_codeword = encode_codeword lib code;
  decode_codeword = λ word. decoded (decode_codeword lib code word);
}

module _ (c : CoreLib) (suite : CryptoSuite) (code : Bch) (params : FeParams) where
  -- The block of this number: the noisy bits without their sketch were corrected to a codeword, by no
  -- more errors than the code allows.
  abbrev pub IsCorrected : Bytes → List Bytes → ℕ → Type 0
  IsCorrected outer sketch b =
      (offset : Bytes) × (noisy : Bytes) × (corrected : Bytes) × (errors : ℕ) × (get_elem? sketch b
        ≡ some offset)
      × (c.xor_bytes (extract_block c outer b params.block_bits) offset ≡ some noisy)
      × (decode_codeword c code noisy ≡ some (some (corrected, errors)))
      × (is_codeword c code corrected ≡ true)
      × (errors ≤ code.t)

  within :
      (received corrected : Bytes) (errors : ℕ)
      → decode_codeword c code received ≡ some (some (corrected, errors))
      → errors ≤ code.t
  within received corrected errors h =
      elim (decode_codeword_closed c code received corrected errors h).2 [
        | inl clean ↦ omega (arith, clean.1)
        | inr flipped ↦ flipped.4
      ]

  block-IsCorrected :
      (outer : Bytes) (sketch blocks : List Bytes) (b : ℕ)
      → HasBlock c suite (as_codec c code) params outer b sketch blocks b
      → IsCorrected outer sketch b
  block-IsCorrected outer sketch blocks b (offset, enrolled, at, found, block) =
      let d =
        decoded_sound (decode_codeword c code block.noisy) (block.corrected, block.errors)
          block.decodes in
      (
        offset,
        block.noisy,
        block.corrected,
        block.errors,
        at,
        block.taken_off,
        d,
        (decode_codeword_closed c code block.noisy block.corrected block.errors d).0,
        within block.noisy block.corrected block.errors d,
      )

  -- Reproduction with the BCH code gives a key only if there are as many sketches as blocks, and the
  -- noisy bits of every block without their sketch were corrected to a word all of whose syndromes are
  -- zero, by no more errors than the code allows; otherwise it gives no success and no key.
  pub rep_corrects :
      (noisy : Bytes) (helper : HelperData) (result : RepResult)
      → rep c suite (as_codec c code) params noisy helper ≡ some result
      → ((result.ok ≡ false) × (result.mk ≡ []))
        ⊎ ((result.ok ≡ true)
            × (length helper.sketch ≡ params.num_blocks)
            × ((b : ℕ)
                → b < params.num_blocks
                → IsCorrected
                    (rep_outer c suite (as_codec c code) params noisy helper.rep_offsets)
                    helper.sketch
                    b))
  rep_corrects noisy helper result h =
      elim (rep_lem c suite (as_codec c code) params noisy helper result h) [
        | inl refused ↦ inl refused
        | inr (blocks, fine, sketches, count, each, key, size) ↦ inr (
          fine,
          sketches,
          λ b lt.
              block-IsCorrected
                (rep_outer c suite (as_codec c code) params noisy helper.rep_offsets) helper.sketch
                blocks b (each b lt),
        )
      ]

-- ===== src/Fe/Extractor.antt =====
-- fe/FuzzyExtractor.h and fe/FuzzyExtractor.cc, class `FuzzyExtractor`: enrolment and reproduction. The
-- budget is computed in doubles; its test is a parameter.
use uav_omnet.Base.{
  ◌>>=◌, ℕ, zero, suc, ◌+◌, ◌-◌, ◌*◌, ◌/◌, ◌%◌, Bool, true, false, not, Option, none, some, List,
  [], ◌∷◌, ◌++◌, Bytes, ltb, ◌==◌, ◌&&◌, ◌||◌, if◌then◌else◌, length, resize,
}
use uav_omnet.Core.{CoreLib}
use uav_omnet.Crypto.Suite.{CryptoSuite}
use uav_omnet.Crypto.Label
use uav_omnet.Fe.Params.{FeParams, HelperData, GenResult, RepResult, Extractor}
use uav_omnet.Fe.Codec.{BchCodec}
use uav_omnet.Fe.Block.{
  write_bits, extract_block, repetition_encode_offsets, repetition_reference,
  repetition_decode_with_offsets,
}

abbrev prepend : Bytes → Option Bytes → Option Bytes
prepend b none = none
prepend b (some rest) = some (b ++ rest)

abbrev no_key : RepResult
no_key = record { mk = []; ok = false }

module _ (c : CoreLib) (suite : CryptoSuite) (codec : BchCodec) (params : FeParams) where
  unfoldable pub required_puf_bits : ℕ
  required_puf_bits = params.num_blocks * params.block_bits * params.rep_factor

  -- The random message of a block, with the bits beyond `k` cleared.
  unfoldable pub message_for : Bytes → ℕ → Bytes
  message_for seed b =
      let message =
        suite.kdf seed [] "uavauth/v1/fe-codeword" (c.u16be (b % 65536))
          (c.bytes_for_bits codec.k) in
      write_bits c (length message * 8 - codec.k) codec.k (λ i. false) message

  -- The loop of `gen` from block `b` on: the sketches and the blocks.
  unfoldable pub gen_blocks : ℕ → ℕ → Bytes → Bytes → Option (List Bytes × Bytes)
  gen_blocks zero b outer seed = some ([], [])
  gen_blocks (suc left) b outer seed =
      let rest = gen_blocks left (b + 1) outer seed in
      let block = extract_block c outer b params.block_bits in
      do
        codeword ← codec.encode_codeword (message_for seed b)
        offset ← c.xor_bytes block codeword
        done ← rest
        some (offset ∷ done.0, block ++ done.1)

  -- The key of the blocks, in `gen` and in `rep`.
  unfoldable pub key_from : Bytes → Bytes → Bytes
  key_from seed recovered =
      let key_bytes = params.key_bits / 8 in
      let key = suite.extract seed recovered in
      resize key_bytes
        (if ltb (length key) key_bytes then suite.kdf key seed Label.fe_root [] key_bytes else key)

  unfoldable pub gen_offsets : Bytes → Bytes
  gen_offsets response =
      if ltb 1 params.rep_factor
      then repetition_encode_offsets c response (params.num_blocks * params.block_bits)
          params.rep_factor
      else []

  unfoldable pub gen_outer : Bytes → Bytes
  gen_outer response =
      if ltb 1 params.rep_factor
      then repetition_reference c response (params.num_blocks * params.block_bits) params.rep_factor
      else response

  unfoldable pub gen : Bytes → Bytes → Option GenResult
  gen response seed =
      if length seed == params.seed_bytes && length response == c.bytes_for_bits required_puf_bits
      then elim (gen_blocks params.num_blocks 0 (gen_outer response) seed) [
        | none ↦ none
        | some (sketch, recovered) ↦ some (record {
          helper = record {
            sketch = sketch;
            rep_offsets = gen_offsets response;
            seed = seed;
            params = params;
          };
          mk = key_from seed recovered;
          ok = true;
        })
      ]
      else none

  -- The loop of `rep` from block `b` on: the blocks, or `some none` where one of them fails.
  unfoldable pub rep_blocks : ℕ → Bytes → List Bytes → Option (Option Bytes)
  rep_blocks b outer [] = some (some [])
  rep_blocks b outer (offset ∷ offsets) =
      let rest = rep_blocks (b + 1) outer offsets in
      let block = extract_block c outer b params.block_bits in
      if length offset == length block
      then elim (c.xor_bytes block offset) [
        | none ↦ none
        | some noisy ↦ elim (codec.decode_codeword noisy) [
          | none ↦ elim rest [ none ↦ none | some r ↦ some none ]
          | some (corrected, errors) ↦ elim (c.xor_bytes offset corrected) [
            | none ↦ none
            | some enrolled ↦ elim rest [ none ↦ none | some r ↦ some (prepend enrolled r) ]
          ]
        ]
      ]
      else some none

  unfoldable pub rep_outer : Bytes → Bytes → Bytes
  rep_outer noisy offsets =
      if ltb 1 params.rep_factor
      then repetition_decode_with_offsets c noisy offsets (params.num_blocks * params.block_bits)
          params.rep_factor
      else noisy

  -- The early returns of `rep`.
  unfoldable pub rep_fits : Bytes → HelperData → Bool
  rep_fits noisy helper =
      length noisy == c.bytes_for_bits required_puf_bits
      && (length helper.sketch == params.num_blocks
          && (length helper.seed == params.seed_bytes
              && (not (ltb 1 params.rep_factor)
                  || length helper.rep_offsets
                    == c.bytes_for_bits
                        (params.num_blocks * params.block_bits * (params.rep_factor - 1)))))

  unfoldable pub rep : Bytes → HelperData → Option RepResult
  rep noisy helper =
      if rep_fits noisy helper
      then elim (rep_blocks 0 (rep_outer noisy helper.rep_offsets) helper.sketch) [
        | none ↦ none
        | some none ↦ some no_key
        | some (some recovered) ↦ some (record { mk = key_from helper.seed recovered; ok = true })
      ]
      else some no_key

-- The constructor, over the codecs' and with the budget test; `none` is an exception.
unfoldable pub extractor_for :
    CoreLib → CryptoSuite → (ℕ → Option BchCodec) → (FeParams → Bool) → FeParams → Option Extractor
extractor_for c suite codecs meets_budget params =
    if (params.rep_factor == 1 || params.rep_factor == 3)
      && (ltb 0 params.num_blocks && not (ltb params.seed_bytes 16))
    then elim (codecs params.bch_t) [
      | none ↦ none
      | some codec ↦
          if codec.n == params.block_bits && (not params.check_budget || meets_budget params)
          then some (record {
            required_puf_bits = required_puf_bits c suite codec params;
            gen = gen c suite codec params;
            rep = rep c suite codec params;
          })
          else none
    ]
    else none

-- ===== src/Fe/Reproduce.antt =====
-- fe/FuzzyExtractor.cc: `rep` gives back the key of `gen` when the codec corrects the noise of every
-- block, and fails closed.
mod Blocks
pub use Blocks.*
use mathlib.Core.Path.{subst}
use uav_omnet.Crypto.Label
use uav_omnet.Base.{
  length-resize, or_empty, Bool-cases, ap, if◌then◌else◌, ◌/◌, ℕ, zero, suc, ◌+◌, ◌*◌, ◌<◌, ◌≤◌,
  ◌≡◌, ◌⊎◌, inl, inr, sym, ◌∙◌, true, false, Option, none, some, List, [], ◌∷◌, ◌++◌, Bytes, ltb,
  length, arith,
}
use uav_omnet.Core.{CoreLib}
use uav_omnet.Crypto.Suite.{CryptoSuite}
use uav_omnet.Fe.Params.{FeParams, HelperData, GenResult, RepResult}
use uav_omnet.Fe.Codec.{BchCodec}
use uav_omnet.Fe.Block.{
  KeepsLength, extract_block, length-extract_block, length-repetition_encode_offsets,
}
use uav_omnet.Fe.Extractor.{
  required_puf_bits, message_for, gen_blocks, key_from, gen_offsets, gen_outer, gen, rep_blocks,
  rep_outer, rep_fits, rep,
}

-- Exclusive or with one operand takes the other back from the sum, and keeps the length.
pub record IsXor (c : CoreLib) : Type 0 where
  pub cancel : (a b s : Bytes) → c.xor_bytes a b ≡ some s → c.xor_bytes s b ≡ some a
  pub length-xor_bytes : (a b s : Bytes) → c.xor_bytes a b ≡ some s → length s ≡ length a

abbrev flat : Option (Option Bytes) → Option Bytes
flat none = none
flat (some o) = o

abbrev or_nothing : Option (List Bytes × Bytes) → List Bytes × Bytes
or_nothing none = ([], [])
or_nothing (some p) = p

module _ (c : CoreLib) (suite : CryptoSuite) (codec : BchCodec) (params : FeParams) where
  -- The codec corrects the noise of a block: a sketch of the enrolled block under its codeword, taken
  -- off the noisy block, leaves a word that decodes to that codeword.
  abbrev pub Correctable : Bytes → Bytes → Bytes → ℕ → Type 0
  Correctable outer noisy seed b =
      (codeword offset : Bytes)
      → codec.encode_codeword (message_for c suite codec params seed b) ≡ some codeword
      → c.xor_bytes (extract_block c outer b params.block_bits) codeword ≡ some offset
      → (word : Bytes) × (errors : ℕ) × (c.xor_bytes (extract_block c noisy b params.block_bits)
            offset
          ≡ some word)
        × (codec.decode_codeword word ≡ some (codeword, errors))

  module _ (keeps : KeepsLength c) (is_xor : IsXor c) where
    rep_blocks-gen_blocks :
        (left b : ℕ) (outer noisy seed : Bytes) (sketch : List Bytes) (recovered : Bytes)
        → gen_blocks c suite codec params left b outer seed ≡ some (sketch, recovered)
        → ((i : ℕ) → b ≤ i → i < b + left → Correctable outer noisy seed i)
        → (rep_blocks c suite codec params b noisy sketch ≡ some (some recovered))
          × (length sketch ≡ left)
    unfolding gen_blocks rep_blocks
    rep_blocks-gen_blocks zero b outer noisy seed sketch recovered h fixes =
        (ground arith, ground arith)
    rep_blocks-gen_blocks (suc left) b outer noisy seed sketch recovered h fixes =
        let block = extract_block c outer b params.block_bits in
        let noisy_block = extract_block c noisy b params.block_bits in
        let codeword = or_empty (codec.encode_codeword (message_for c suite codec params seed b)) in
        let offset = or_empty (c.xor_bytes block codeword) in
        let rest = or_nothing (gen_blocks c suite codec params left (b + 1) outer seed) in
        let encodes : codec.encode_codeword (message_for c suite codec params seed b)
            ≡ some codeword =
          ground arith in
        let offsets : c.xor_bytes block codeword ≡ some offset = ground arith in
        let more : gen_blocks c suite codec params left (b + 1) outer seed ≡ some rest =
          ground arith in
        let (word, errors, takes_off, decodes) =
          fixes b (omega arith) (omega arith) codeword offset encodes offsets in
        let (recovers, count) =
          rep_blocks-gen_blocks left (b + 1) outer noisy seed rest.0 rest.1 more
            (λ i le lt. fixes i (omega arith) (omega arith)) in
        let same_size : length offset ≡ length noisy_block =
          is_xor.length-xor_bytes block codeword offset offsets
          ∙ length-extract_block c keeps outer b params.block_bits
          ∙ sym (length-extract_block c keeps noisy b params.block_bits) in
        let enrolled = is_xor.cancel block codeword offset offsets in
        let shape : (sketch ≡ offset ∷ rest.0) × (recovered ≡ block ++ rest.1) = ground arith in
        ground arith

    -- When the codec corrects the noise of every block, `rep` on the helper data of `gen` and a noisy
    -- response of the required length gives the key of `gen`; bit writes keep the length of a byte
    -- string, and the exclusive or cancels.
    pub rep-gen :
        (response noisy seed : Bytes) (result : GenResult)
        → gen c suite codec params response seed ≡ some result
        → length noisy ≡ c.bytes_for_bits (required_puf_bits c suite codec params)
        → ((i : ℕ)
            → i < params.num_blocks
            → Correctable
                (gen_outer c suite codec params response)
                (rep_outer c suite codec params noisy result.helper.rep_offsets)
                seed
                i)
        → rep c suite codec params noisy result.helper ≡ some (record { mk = result.mk; ok = true })
    unfolding gen gen_offsets rep rep_fits
    rep-gen response noisy seed result h size fixes =
        let outer = gen_outer c suite codec params response in
        let blocks = or_nothing (gen_blocks c suite codec params params.num_blocks 0 outer seed) in
        let generates : gen_blocks c suite codec params params.num_blocks 0 outer seed
            ≡ some blocks =
          ground arith in
        let made : result ≡ record {
          helper = record {
            sketch = blocks.0;
            rep_offsets = gen_offsets c suite codec params response;
            seed = seed;
            params = params;
          };
          mk = key_from c suite codec params seed blocks.1;
          ok = true;
        } =
          ground arith in
        let (recovers, count) =
          rep_blocks-gen_blocks params.num_blocks 0 outer
            (rep_outer c suite codec params noisy result.helper.rep_offsets) seed blocks.0 blocks.1
            generates (λ i le lt. fixes i (omega arith)) in
        let sized =
          length-repetition_encode_offsets c keeps response (params.num_blocks * params.block_bits)
            params.rep_factor in
        ground arith

  -- Reproduction fails closed: a result is no success and has an empty key, or it is a success and there
  -- are as many sketches and blocks as the parameters say, the word of every block was decoded and gives
  -- its enrolled bits, and the key is that of all those bits in their order and has `key_bits / 8` bytes.
  pub rep_lem :
      (noisy : Bytes) (helper : HelperData) (result : RepResult)
      → rep c suite codec params noisy helper ≡ some result
      → ((result.ok ≡ false) × (result.mk ≡ []))
        ⊎ ((blocks : List Bytes) × (result.ok ≡ true)
            × (length helper.sketch ≡ params.num_blocks)
            × (length blocks ≡ params.num_blocks)
            × ((i : ℕ)
                → i < params.num_blocks
                → HasBlock c suite codec params
                    (rep_outer c suite codec params noisy helper.rep_offsets)
                    i
                    helper.sketch
                    blocks
                    i)
            × (result.mk ≡ key_from c suite codec params helper.seed (joined blocks))
            × (length result.mk ≡ params.key_bits / 8))
  unfolding rep rep_fits key_from
  rep_lem noisy helper result h = elim (Bool-cases result.ok) [
    | inr not_fine ↦ inl (not_fine, ground arith)
    | inl fine ↦
        let outer = rep_outer c suite codec params noisy helper.rep_offsets in
        let recovered = or_empty (flat (rep_blocks c suite codec params 0 outer helper.sketch)) in
        let found : rep_blocks c suite codec params 0 outer helper.sketch ≡ some (some recovered) =
          ground arith in
        let sketches : length helper.sketch ≡ params.num_blocks = ground arith in
        let (blocks, count, same, each) =
          all_blocks c suite codec params 0 outer helper.sketch recovered found in
        let key = suite.extract helper.seed recovered in
        let sized = length-resize (params.key_bits / 8) (
          if ltb (length key) (params.key_bits / 8)
          then suite.kdf key helper.seed Label.fe_root [] (params.key_bits / 8)
          else key) in
        let made : result.mk ≡ key_from c suite codec params helper.seed recovered = ground arith in
        inr (
          blocks,
          fine,
          sketches,
          count ∙ sketches,
          λ i lt.
              subst (λ n. HasBlock c suite codec params outer n helper.sketch blocks i)
                (omega arith) (each i (omega (arith, lt, sketches))),
          made ∙ ap (key_from c suite codec params helper.seed) same,
          ground (arith, made, sized),
        )
  ]

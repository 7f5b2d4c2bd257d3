-- ===== src/Fe/Reproduce/Blocks.antt =====
-- fe/FuzzyExtractor.cc, the loop of `rep` over the blocks, against the blocks one by one.
use mathlib.Core.Path.{subst}
use uav_omnet.Base.{
  ℕ, zero, suc, ◌+◌, ◌<◌, ◌≡◌, refl, ap, ◌∙◌, inl, inr, none, some, Option-cases, List, [], ◌∷◌,
  ◌++◌, Bytes, length, get_elem?, arith,
}
use uav_omnet.Core.{CoreLib}
use uav_omnet.Crypto.Suite.{CryptoSuite}
use uav_omnet.Fe.Params.{FeParams}
use uav_omnet.Fe.Codec.{BchCodec}
use uav_omnet.Fe.Block.{extract_block}
use uav_omnet.Fe.Extractor.{rep_blocks}

-- The blocks, one after the other.
unfoldable pub joined : List Bytes → Bytes
joined [] = []
joined (b ∷ bs) = b ++ joined bs

module _ (c : CoreLib) (suite : CryptoSuite) (codec : BchCodec) (params : FeParams) where
  -- What reproduction makes of one block: the noisy word, the word that it decodes to, and the enrolled
  -- bits that the sketch gives with that word.
  pub record IsDecoded (outer : Bytes) (b : ℕ) (offset enrolled : Bytes) : Type 0 where
    pub noisy : Bytes
    pub corrected : Bytes
    pub errors : ℕ
    pub sized : length offset ≡ length (extract_block c outer b params.block_bits)
    pub taken_off : c.xor_bytes (extract_block c outer b params.block_bits) offset ≡ some noisy
    pub decodes : codec.decode_codeword noisy ≡ some (corrected, errors)
    pub put_back : c.xor_bytes offset corrected ≡ some enrolled

  -- Block `b` of the bits, with its sketch and its enrolled bits, which stand at `i` in these lists.
  abbrev pub HasBlock : Bytes → ℕ → List Bytes → List Bytes → ℕ → Type 0
  HasBlock outer b offsets blocks i =
      (offset : Bytes) × (enrolled : Bytes) × (get_elem? offsets i ≡ some offset)
      × (get_elem? blocks i ≡ some enrolled)
      × IsDecoded outer b offset enrolled

  -- The first block, and the bits after it.
  first_block :
      (b : ℕ) (outer offset : Bytes) (offsets : List Bytes) (recovered : Bytes)
      → rep_blocks c suite codec params b outer (offset ∷ offsets) ≡ some (some recovered)
      → (enrolled : Bytes) × (rest : Bytes) × IsDecoded outer b offset enrolled
        × (rep_blocks c suite codec params (b + 1) outer offsets ≡ some (some rest))
        × (recovered ≡ enrolled ++ rest)
  unfolding rep_blocks
  first_block b outer offset offsets recovered h =
      let block = extract_block c outer b params.block_bits in
      elim (Option-cases (c.xor_bytes block offset)) [
        | inl e ↦ absurd (ground (arith, h, e))
        | inr (noisy, e) ↦ elim (Option-cases (codec.decode_codeword noisy)) [
          | inl f ↦ absurd (ground (arith, h, e, f))
          | inr ((corrected, errors), f) ↦ elim (Option-cases (c.xor_bytes offset corrected)) [
            | inl g ↦ absurd (ground (arith, h, e, f, g))
            | inr (enrolled, g) ↦
                elim (Option-cases (rep_blocks c suite codec params (b + 1) outer offsets)) [
                  | inl k ↦ absurd (ground (arith, h, e, f, g, k))
                  | inr (none, k) ↦ absurd (ground (arith, h, e, f, g, k))
                  | inr (some rest, k) ↦ (
                    enrolled,
                    rest,
                    record {
                      noisy = noisy;
                      corrected = corrected;
                      errors = errors;
                      sized = ground (arith, h);
                      taken_off = e;
                      decodes = f;
                      put_back = g;
                    },
                    k,
                    ground (arith, h, e, f, g, k),
                  )
                ]
          ]
        ]
      ]

  pub all_blocks :
      (b : ℕ) (outer : Bytes) (offsets : List Bytes) (recovered : Bytes)
      → rep_blocks c suite codec params b outer offsets ≡ some (some recovered)
      → (blocks : List Bytes) × (length blocks ≡ length offsets)
        × (recovered ≡ joined blocks)
        × ((i : ℕ) → i < length offsets → HasBlock outer (b + i) offsets blocks i)
  unfolding rep_blocks joined
  all_blocks b outer [] recovered h =
      ([], refl, ground (arith, h), λ i lt. absurd (omega (arith, lt)))
  all_blocks b outer (offset ∷ offsets) recovered h =
      let (enrolled, rest, first, more, whole) = first_block b outer offset offsets recovered h in
      let (blocks, count, same, each) = all_blocks (b + 1) outer offsets rest more in
      (
        enrolled ∷ blocks,
        omega (arith, count),
        whole ∙ ap (λ r. enrolled ++ r) same,
        block_at b outer offset enrolled offsets blocks first each,
      )
    where
      block_at :
          (b : ℕ) (outer offset enrolled : Bytes) (offsets blocks : List Bytes)
          → IsDecoded outer b offset enrolled
          → ((i : ℕ) → i < length offsets → HasBlock outer (b + 1 + i) offsets blocks i)
          → (i : ℕ) → i < length (offset ∷ offsets)
          → HasBlock outer (b + i) (offset ∷ offsets) (enrolled ∷ blocks) i
      block_at b outer offset enrolled offsets blocks first each zero lt = (
        offset,
        enrolled,
        refl,
        refl,
        subst (λ n. IsDecoded outer n offset enrolled) (omega arith) first,
      )
      block_at b outer offset enrolled offsets blocks first each (suc i) lt =
          let (o, e, at, found, decoded) = each i (omega (arith, lt)) in
          (o, e, at, found, subst (λ n. IsDecoded outer n o e) (omega arith) decoded)

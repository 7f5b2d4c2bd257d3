-- ===== src/Fe/Bch/Systematic.antt =====
-- fe/BchCodec.cc, `encodeCodeword`: where the bits of the message stand in the codeword.
use uav_omnet.Base.{
  ℕ, zero, suc, ◌+◌, ◌*◌, ◌≤◌, ◌<◌, ◌≡◌, ◌≢◌, ◌∙◌, ap, sym, refl, ◌⊎◌, inl, inr, Bool, none, some,
  Option-cases, Bool-cases, [], Bytes, length, replicate, length-replicate, ltb, arith,
}
use uav_omnet.Core.{CoreLib}
use uav_omnet.Fe.Bch.{
  Bch, with_tables, construct, conjugates_from, copy_bits, encode_parity, encode_codeword,
}

-- A bit that is set reads back, and no other bit changes with it (tests/test_encoding.cc,
-- `testByteHelpers`).
pub record IsBits (lib : CoreLib) : Type 0 where
  pub get_bit-set_bit :
      (b : Bytes) (size i : ℕ) (v : Bool)
      → lib.bytes_for_bits size ≤ length b
      → i < size
      → lib.get_bit (lib.set_bit b i v) i ≡ v
  pub get_bit-set_bit_other :
      (b : Bytes) (i j : ℕ) (v : Bool) → i ≢ j → lib.get_bit (lib.set_bit b i v) j ≡ lib.get_bit b j
  pub length-set_bit : (b : Bytes) (i : ℕ) (v : Bool) → length (lib.set_bit b i v) ≡ length b

-- The message and the parity fill the block.
construct_fills : (t poly : ℕ) (c : Bch) → construct t poly ≡ some c → c.k + c.parity_bits ≡ c.n
unfolding construct with_tables
construct_fills t poly c h = elim (Option-cases (conjugates_from (2 * t) 1 [])) [
  | inl e ↦ absurd (ground arith)
  | inr (roots, e) ↦ ground arith
]

module _ (lib : CoreLib) (c : Bch) (bits : IsBits lib) where
  open bits use {get_bit-set_bit, get_bit-set_bit_other, length-set_bit}

  encode_parity-fits :
      (message : Bytes)
      → length message ≡ lib.bytes_for_bits c.k
      → encode_parity lib c message ≢ none
  unfolding encode_parity
  encode_parity-fits message size e = absurd (ground arith)

  length-copy_bits :
      (left i at : ℕ) (source word : Bytes)
      → length (copy_bits lib c left i at source word) ≡ length word
  unfolding copy_bits
  length-copy_bits zero i at source word = refl
  length-copy_bits (suc left) i at source word =
      length-copy_bits left (i + 1) at source _ ∙ length-set_bit word (at + i) _

  copy_bits-outside :
      (left i at : ℕ) (source word : Bytes) (j : ℕ)
      → (j < at + i) ⊎ (at + i + left ≤ j)
      → lib.get_bit (copy_bits lib c left i at source word) j ≡ lib.get_bit word j
  unfolding copy_bits
  copy_bits-outside zero i at source word j h = refl
  copy_bits-outside (suc left) i at source word j h =
      copy_bits-outside left (i + 1) at source _ j
        (elim h [ inl before ↦ inl (omega arith) | inr after ↦ inr (omega arith) ])
      ∙ get_bit-set_bit_other word (at + i) j _ (λ e. elim h [
        | inl before ↦ absurd (omega (arith, e))
        | inr after ↦ absurd (omega (arith, e))
      ])

  copy_bits-inside :
      (left i at : ℕ) (source word : Bytes) (size p : ℕ)
      → lib.bytes_for_bits size ≤ length word
      → at + i + left ≤ size
      → i ≤ p
      → p < i + left
      → lib.get_bit (copy_bits lib c left i at source word) (at + p) ≡ lib.get_bit source p
  unfolding copy_bits
  copy_bits-inside zero i at source word size p room fits from to = absurd (omega arith)
  copy_bits-inside (suc left) i at source word size p room fits from to =
      elim (Bool-cases (ltb i p)) [
        | inl later ↦
            copy_bits-inside left (i + 1) at source _ size p
              (omega (arith, length-set_bit word (at + i) (lib.get_bit source i))) (omega arith)
              (ground arith) (omega arith)
        | inr now ↦
            (let same : i ≡ p = ground arith in
              copy_bits-outside left (i + 1) at source _ (at + p) (inl (omega arith))
              ∙ (ap (λ q. lib.get_bit (lib.set_bit word (at + i) (lib.get_bit source i)) (at + q))
                    (sym same)
                  ∙ (get_bit-set_bit word size (at + i) _ room (omega arith)
                      ∙ ap (lib.get_bit source) same)))
      ]

  -- In a code that was constructed, over bits that read back as they were set: a message of the right
  -- size is encoded, and the codeword has the size of a block and consists of the bits of the message
  -- followed by the bits of its parity.
  pub encode_codeword-systematic :
      (t poly : ℕ) (message : Bytes)
      → construct t poly ≡ some c
      → length message ≡ lib.bytes_for_bits c.k
      → (word : Bytes) × (parity : Bytes) × (encode_codeword lib c message ≡ some word)
        × (encode_parity lib c message ≡ some parity)
        × (length word ≡ lib.bytes_for_bits c.n)
        × ((i : ℕ) → i < c.k → lib.get_bit word i ≡ lib.get_bit message i)
        × ((i : ℕ) → i < c.parity_bits → lib.get_bit word (c.k + i) ≡ lib.get_bit parity i)
  unfolding encode_codeword
  encode_codeword-systematic t poly message made size =
      let fills = construct_fills t poly c made in
      let blank : Bytes = replicate (lib.bytes_for_bits c.n) 0 in
      let blank_size : length blank ≡ lib.bytes_for_bits c.n =
        length-replicate (lib.bytes_for_bits c.n) 0 in
      let head : Bytes = copy_bits lib c c.k 0 0 message blank in
      let head_size : length head ≡ lib.bytes_for_bits c.n =
        length-copy_bits c.k 0 0 message blank ∙ blank_size in
      elim (Option-cases (encode_parity lib c message)) [
        | inl e ↦ absurd (encode_parity-fits message size e)
        | inr (parity, e) ↦ (
          copy_bits lib c c.parity_bits 0 c.k parity head,
          parity,
          rw (e, encode_codeword) refl,
          e,
          length-copy_bits c.parity_bits 0 c.k parity head ∙ head_size,
          λ i below.
              copy_bits-outside c.parity_bits 0 c.k parity head i (inl (omega arith))
              ∙ (let zero_on : i ≡ 0 + i = omega arith in
                  ap (lib.get_bit head) zero_on
                  ∙ copy_bits-inside c.k 0 0 message blank c.n i (omega (arith, blank_size))
                      (omega (arith, fills)) (omega arith) (omega arith)),
          λ i below.
              copy_bits-inside c.parity_bits 0 c.k parity head c.n i (omega (arith, head_size))
                (omega (arith, fills)) (omega arith) (omega arith),
        )
      ]

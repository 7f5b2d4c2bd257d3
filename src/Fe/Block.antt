-- ===== src/Fe/Block.antt =====
-- fe/FuzzyExtractor.cc: the blocks of a response and the repetition code. A byte string is written bit
-- by bit, by the operations of the missing byte library.
use uav_omnet.Base.{
  ℕ, zero, suc, ◌+◌, ◌-◌, ◌*◌, ◌≡◌, refl, Bool, not, ◌&&◌, Bytes, ltb, if◌then◌else◌, length,
  replicate, length-replicate, ◌∙◌,
}
use uav_omnet.Core.{CoreLib}

abbrev xor : Bool → Bool → Bool
xor a b = if a then not b else b

module _ (c : CoreLib) where
  -- `for (i ...) setBit(out, i, bit(i))`, with the rounds left.
  unfoldable pub write_bits : ℕ → ℕ → (ℕ → Bool) → Bytes → Bytes
  write_bits zero i bit out = out
  write_bits (suc left) i bit out = write_bits left (i + 1) bit (c.set_bit out i (bit i))

  -- A byte string of zeroes for some bits.
  abbrev pub blank_bits : ℕ → Bytes
  blank_bits bits = replicate (c.bytes_for_bits bits) 0

  unfoldable pub extract_block : Bytes → ℕ → ℕ → Bytes
  extract_block all index bits =
      write_bits bits 0 (λ i. c.get_bit all (index * bits + i)) (blank_bits bits)

  -- The inner loop of `repetitionEncodeOffsets`.
  unfoldable pub write_copies : ℕ → ℕ → ℕ → ℕ → Bytes → Bytes → Bytes
  write_copies zero r i rep raw offsets = offsets
  write_copies (suc left) r i rep raw offsets = write_copies left (r + 1) i rep raw (
      c.set_bit offsets (i * (rep - 1) + (r - 1))
        (xor (c.get_bit raw (i * rep + r)) (c.get_bit raw (i * rep))))

  unfoldable pub write_offsets : ℕ → ℕ → ℕ → Bytes → Bytes → Bytes
  write_offsets zero i rep raw offsets = offsets
  write_offsets (suc left) i rep raw offsets =
      write_offsets left (i + 1) rep raw (write_copies (rep - 1) 1 i rep raw offsets)

  unfoldable pub repetition_encode_offsets : Bytes → ℕ → ℕ → Bytes
  repetition_encode_offsets raw outer_bits rep =
      write_offsets outer_bits 0 rep raw (blank_bits (outer_bits * (rep - 1)))

  unfoldable pub repetition_reference : Bytes → ℕ → ℕ → Bytes
  repetition_reference raw outer_bits rep =
      write_bits outer_bits 0 (λ i. c.get_bit raw (i * rep)) (blank_bits outer_bits)

  -- A copy with its offset undone.
  unfoldable pub copy_of : Bytes → Bytes → ℕ → ℕ → ℕ → Bool
  copy_of raw offsets rep i r =
      let bit = c.get_bit raw (i * rep + r) in
      if ltb 0 r && c.get_bit offsets (i * (rep - 1) + (r - 1)) then not bit else bit

  unfoldable pub count_ones : ℕ → ℕ → ℕ → ℕ → Bytes → Bytes → ℕ
  count_ones zero r i rep raw offsets = 0
  count_ones (suc left) r i rep raw offsets =
      (if copy_of raw offsets rep i r then 1 else 0) + count_ones left (r + 1) i rep raw offsets

  unfoldable pub repetition_decode_with_offsets : Bytes → Bytes → ℕ → ℕ → Bytes
  repetition_decode_with_offsets raw offsets outer_bits rep =
      write_bits outer_bits 0 (λ i. ltb rep (count_ones rep 0 i rep raw offsets * 2))
        (blank_bits outer_bits)

  -- `setBit` keeps the length.
  abbrev pub KeepsLength : Type 0
  KeepsLength = (b : Bytes) (i : ℕ) (v : Bool) → length (c.set_bit b i v) ≡ length b

  length-write_bits :
      KeepsLength
      → (left i : ℕ) (bit : ℕ → Bool) (out : Bytes)
      → length (write_bits left i bit out) ≡ length out
  unfolding write_bits
  length-write_bits keeps zero i bit out = refl
  length-write_bits keeps (suc left) i bit out =
      length-write_bits keeps left (i + 1) bit (c.set_bit out i (bit i)) ∙ keeps out i (bit i)

  pub length-extract_block :
      KeepsLength
      → (all : Bytes) (index bits : ℕ)
      → length (extract_block all index bits) ≡ c.bytes_for_bits bits
  unfolding extract_block
  length-extract_block keeps all index bits =
      length-write_bits keeps bits 0 (λ i. c.get_bit all (index * bits + i)) (blank_bits bits)
      ∙ length-replicate (c.bytes_for_bits bits) 0

  length-write_copies :
      KeepsLength
      → (left r i rep : ℕ) (raw offsets : Bytes)
      → length (write_copies left r i rep raw offsets) ≡ length offsets
  unfolding write_copies
  length-write_copies keeps zero r i rep raw offsets = refl
  length-write_copies keeps (suc left) r i rep raw offsets =
      length-write_copies keeps left (r + 1) i rep raw _ ∙ keeps offsets _ _

  length-write_offsets :
      KeepsLength
      → (left i rep : ℕ) (raw offsets : Bytes)
      → length (write_offsets left i rep raw offsets) ≡ length offsets
  unfolding write_offsets
  length-write_offsets keeps zero i rep raw offsets = refl
  length-write_offsets keeps (suc left) i rep raw offsets =
      length-write_offsets keeps left (i + 1) rep raw _
      ∙ length-write_copies keeps (rep - 1) 1 i rep raw offsets

  pub length-repetition_encode_offsets :
      KeepsLength
      → (raw : Bytes) (outer_bits rep : ℕ)
      → length (repetition_encode_offsets raw outer_bits rep)
        ≡ c.bytes_for_bits (outer_bits * (rep - 1))
  unfolding repetition_encode_offsets
  length-repetition_encode_offsets keeps raw outer_bits rep =
      length-write_offsets keeps outer_bits 0 rep raw (blank_bits (outer_bits * (rep - 1)))
      ∙ length-replicate (c.bytes_for_bits (outer_bits * (rep - 1))) 0

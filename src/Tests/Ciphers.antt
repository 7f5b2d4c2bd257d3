-- ===== src/Tests/Ciphers.antt =====
-- The ciphers on known answers: the first vectors of tests/kat/ascon128a_kat.h.
use uav_omnet.Base.{
  arith, ◌+◌, ◌-◌, length, ℕ, ◌≡◌, refl, some, [], ◌∷◌, ◌++◌, Bytes, take, drop, replicate,
  bytes_eq,
}
use uav_omnet.Crypto.Ascon.{
  rotr, inverted, load_from, load64be, store_before, store64be, mix, chi, unmix, diffuse,
  ascon_round, rounds_with, permute, initialise, add_block, padded, absorb_blocks,
  absorb_associated_data, finalise,
}
use uav_omnet.Crypto.Ascon.Cipher.{
  rate_of, encrypt_blocks, ascon128a_encrypt, decrypt_blocks, opened, ascon128a_decrypt,
  replace_rate, xor_each, rebuilt,
}
use uav_omnet.Crypto.Ascon.RoundTrip.{ascon128a_decrypt-ascon128a_encrypt}
use uav_omnet.Crypto.Ascon.Authentic.{ascon128a_decrypt_authentic}
use uav_omnet.Crypto.Spongent
use uav_omnet.Crypto.Spongent.{
  sbox, player_index, lfsr_next, swap_nibbles, swap_pairs, swap_bits, reverse_byte, row_from,
  table_row, xor_row, contributions, p_layer, substitute, add_at, spongent_round, rounds_from,
}
use uav_omnet.Crypto.Spongent.Sponge
use uav_omnet.Crypto.Spongent.Sponge.{absorb, min_size, squeeze, absorbed, sponge_absorb_squeeze}
use uav_omnet.Crypto.Label
use uav_omnet.Crypto.Spongent.Sponge.{sponge_absorb_squeeze-total}
use uav_omnet.Crypto.Contract.{IsSuite}
use uav_omnet.Crypto.Ascon.Words.{AllBytes}
use uav_omnet.Crypto.Spongent.Suite.{spongent_suite, spongent-IsSuite}
use uav_omnet.Crypto.Spongent.Binding.{KdfRequest, IsShort, kdf_input_binds}
use uav_omnet.Tests.Toy.{core, core-IsBigEndian}

abbrev counting : Bytes
counting = 0 ∷ 1 ∷ 2 ∷ 3 ∷ 4 ∷ 5 ∷ 6 ∷ 7 ∷ 8 ∷ 9 ∷ 10 ∷ 11 ∷ 12 ∷ 13 ∷ 14 ∷ 15 ∷ []

-- The ciphertext of one zero byte.
abbrev sealed : Bytes
sealed =
    0x6e ∷ 0x65 ∷ 0x2b ∷ 0x55 ∷ 0xbf ∷ 0xdc ∷ 0x8c ∷ 0xad ∷ 0x2e ∷ 0xc4 ∷ 0x38 ∷ 0x15 ∷ 0xb1 ∷ 0x66
    ∷ 0x6b ∷ 0x1a ∷ 0x3a ∷ []

record Vectors : Type 0 where
  vector_1 :
      ascon128a_encrypt counting counting [] []
      ≡ some (
          0x7a ∷ 0x83 ∷ 0x4e ∷ 0x6f ∷ 0x09 ∷ 0x21 ∷ 0x09 ∷ 0x57 ∷ 0x06 ∷ 0x7b ∷ 0x10 ∷ 0xfd ∷ 0x83
          ∷ 0x1f ∷ 0x00 ∷ 0x78 ∷ [])
  vector_18 :
      ascon128a_encrypt counting counting (counting ++ 16 ∷ []) []
      ≡ some (
          0x91 ∷ 0x7d ∷ 0x53 ∷ 0x0f ∷ 0x34 ∷ 0x15 ∷ 0x71 ∷ 0x58 ∷ 0xcf ∷ 0x8c ∷ 0xa4 ∷ 0x9d ∷ 0x01
          ∷ 0xaf ∷ 0x44 ∷ 0xf0 ∷ [])
  opens : ascon128a_decrypt counting counting [] sealed ≡ some (0 ∷ [])
  vector_34 :
      ascon128a_encrypt counting counting [] (0 ∷ [])
      ≡ some (
          0x6e ∷ 0x65 ∷ 0x2b ∷ 0x55 ∷ 0xbf ∷ 0xdc ∷ 0x8c ∷ 0xad ∷ 0x2e ∷ 0xc4 ∷ 0x38 ∷ 0x15 ∷ 0xb1
          ∷ 0x66 ∷ 0x6b ∷ 0x1a ∷ 0x3a ∷ [])

vectors : Vectors
unfolding rotr inverted load_from load64be store_before store64be mix chi unmix diffuse ascon_round
    rounds_with permute initialise add_block padded absorb_blocks absorb_associated_data finalise
    rate_of encrypt_blocks ascon128a_encrypt decrypt_blocks opened ascon128a_decrypt replace_rate
    xor_each rebuilt bytes_eq take drop replicate
vectors = record { vector_1 = refl; opens = refl; vector_18 = refl; vector_34 = refl }

ascon128a_decrypt-ascon128a_encrypt_example :
    ascon128a_decrypt counting counting [] sealed ≡ some (0 ∷ [])
ascon128a_decrypt-ascon128a_encrypt_example =
    ascon128a_decrypt-ascon128a_encrypt counting counting [] (0 ∷ []) sealed (omega arith, tt)
      vectors.vector_34

ascon128a_decrypt_authentic_example :
    (length counting ≡ 16)
    × (length counting ≡ 16)
    × (length sealed ≡ length {A = ℕ} (0 ∷ []) + 16)
    × ((tag : Bytes) × (opened counting counting [] (take (length sealed - 16) sealed)
          ≡ (0 ∷ [], tag))
        × (drop (length sealed - 16) sealed ≡ tag))
ascon128a_decrypt_authentic_example =
    ascon128a_decrypt_authentic counting counting [] sealed (0 ∷ []) vectors.opens

-- The beginnings of two digests of tests/test_spongent.cc: of no byte, and of one zero byte.
record Digests : Type 0 where
  of_none : sponge_absorb_squeeze [] 2 ≡ some (0xbe ∷ 0x20 ∷ [])
  of_zero : sponge_absorb_squeeze (0 ∷ []) 2 ≡ some (0x53 ∷ 0x43 ∷ [])

digests : Digests
unfolding sbox player_index lfsr_next swap_nibbles swap_pairs swap_bits reverse_byte row_from
    table_row xor_row contributions p_layer substitute add_at spongent_round rounds_from
    Spongent.permute Sponge.add_block absorb min_size squeeze absorbed sponge_absorb_squeeze take
    drop replicate
digests = record { of_none = refl; of_zero = refl }

spongent-IsSuite_example :
    IsSuite
      (spongent_suite core)
      (λ key. Unit)
      (λ ikm salt label info n. Unit)
      (λ aad plaintext. AllBytes plaintext)
spongent-IsSuite_example = spongent-IsSuite core

abbrev request : KdfRequest
request = record { ikm = 1 ∷ 2 ∷ []; salt = []; label = Label.p2_sess; info = 3 ∷ []; out_len = 32 }

request-IsShort : IsShort core request
request-IsShort = record {
  ikm = omega arith;
  salt = omega arith;
  label = omega arith;
  info = omega arith;
  out_len = omega arith;
}

kdf_input_binds_example :
    (request.ikm ≡ request.ikm)
    × (request.salt ≡ request.salt)
    × (core.from_string request.label ≡ core.from_string request.label)
    × (request.info ≡ request.info)
    × (request.out_len ≡ request.out_len)
kdf_input_binds_example =
    kdf_input_binds core core-IsBigEndian (λ label. refl) request request request-IsShort
      request-IsShort refl

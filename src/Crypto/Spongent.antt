-- ===== src/Crypto/Spongent.antt =====
-- crypto/spongent/Spongent160.h and crypto/spongent/Spongent160.cc: the permutation and the sponge of
-- SPONGENT-160. A state is a list of 22 bytes; wiping it before it goes out of scope leaves nothing to
-- model.
pub mod Layers
pub mod Sponge
pub mod Suite
pub mod Binding
use Prim.Native.Nat.{bit_and, bit_or, bit_xor}
use uav_omnet.Base.{
  ℕ, zero, suc, ◌+◌, ◌-◌, ◌*◌, ◌/◌, ◌%◌, ◌^◌, ◌<◌, ◌≡◌, refl, List, [], ◌∷◌, ◌++◌, map, Bytes, ◌==◌,
  if◌then◌else◌, length, take, drop, replicate, get_or, set, length-set, length-take,
  length-replicate, arith,
}

abbrev pub state_bits : ℕ
state_bits = 176

abbrev pub state_bytes : ℕ
state_bytes = 22

abbrev pub rate_bytes : ℕ
rate_bytes = 2

abbrev pub rounds : ℕ
rounds = 90

abbrev pub lfsr_init : ℕ
lfsr_init = 0x45

abbrev sbox_table : List ℕ
sbox_table =
    0xE ∷ 0xD ∷ 0xB ∷ 0x0 ∷ 0x2 ∷ 0x1 ∷ 0x4 ∷ 0xF ∷ 0x7 ∷ 0xA ∷ 0x8 ∷ 0x5 ∷ 0x9 ∷ 0xC ∷ 0x3 ∷ 0x6
    ∷ []

unfoldable pub sbox : ℕ → ℕ
sbox nibble = get_or sbox_table (bit_and nibble 0x0F) 0

unfoldable pub player_index : ℕ → ℕ
player_index bit_index =
    if bit_index == state_bits - 1
    then state_bits - 1
    else (bit_index * (state_bits / 4)) % (state_bits - 1)

unfoldable pub lfsr_next : ℕ → ℕ
lfsr_next lfsr =
    let feedback = bit_xor (bit_and lfsr 0x40 / 64) (bit_and lfsr 0x20 / 32) in
    bit_and (bit_or (lfsr * 2) feedback) 0x7F

-- The three exchanges of `reverseByte`.
unfoldable pub swap_nibbles : ℕ → ℕ
swap_nibbles v = bit_or (bit_and v 0xF0 / 16) (bit_and v 0x0F * 16)

unfoldable pub swap_pairs : ℕ → ℕ
swap_pairs v = bit_or (bit_and v 0xCC / 4) (bit_and v 0x33 * 4)

unfoldable pub swap_bits : ℕ → ℕ
swap_bits v = bit_or (bit_and v 0xAA / 2) (bit_and v 0x55 * 2)

unfoldable pub reverse_byte : ℕ → ℕ
reverse_byte v = swap_bits (swap_pairs (swap_nibbles v))

abbrev row_bytes : ℕ
row_bytes = 24

-- A row of the table after the bits from `bit` on; `left` of them are to come.
unfoldable pub row_from : ℕ → ℕ → ℕ → ℕ → Bytes → Bytes
row_from zero bit byte_index value row = row
row_from (suc left) bit byte_index value row =
    let dst = player_index (byte_index * 8 + bit) in
    row_from left (bit + 1) byte_index value (
      if value / 2 ^ bit % 2 == 0
      then row
      else set row (dst / 8) (bit_or (get_or row (dst / 8) 0) (2 ^ (dst % 8))))

unfoldable pub table_row : ℕ → ℕ → Bytes
table_row byte_index value = row_from 8 0 byte_index value (replicate row_bytes 0)

-- Exclusive or, byte by byte; the words of the source carry eight bytes at a time.
unfoldable pub xor_row : Bytes → Bytes → Bytes
xor_row [] b = []
xor_row (x ∷ a) [] = []
xor_row (x ∷ a) (y ∷ b) = bit_xor x y ∷ xor_row a b

unfoldable pub contributions : ℕ → Bytes → Bytes → Bytes
contributions byte_index [] acc = acc
contributions byte_index (v ∷ rest) acc =
    contributions (byte_index + 1) rest (xor_row acc (table_row byte_index v))

unfoldable pub p_layer : Bytes → Bytes
p_layer state = take state_bytes (contributions 0 state (replicate row_bytes 0))

unfoldable pub substitute : ℕ → ℕ
substitute b = bit_or (sbox (b / 16) * 16) (sbox (bit_and b 0x0F))

-- `state[i] ^= v`.
unfoldable pub add_at : ℕ → ℕ → Bytes → Bytes
add_at i v state = set state i (bit_xor (get_or state i 0) v)

unfoldable pub spongent_round : Bytes → ℕ → Bytes
spongent_round state lfsr =
    p_layer (map substitute (add_at (state_bytes - 1) (reverse_byte lfsr) (add_at 0 lfsr state)))

unfoldable pub rounds_from : ℕ → ℕ → Bytes → Bytes
rounds_from zero lfsr state = state
rounds_from (suc left) lfsr state = rounds_from left (lfsr_next lfsr) (spongent_round state lfsr)

unfoldable pub permute : Bytes → Bytes
permute state = rounds_from rounds lfsr_init state

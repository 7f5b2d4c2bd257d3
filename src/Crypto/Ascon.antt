-- ===== src/Crypto/Ascon.antt =====
-- crypto/ascon/Ascon128a.h and crypto/ascon/Ascon128a.cc: the authenticated encryption of the
-- constrained profile. A word is a number below 2^64; wiping a buffer before it goes out of scope
-- leaves nothing to model.
pub mod Words
pub mod Range
pub mod Cipher
pub mod Blocks
pub mod RoundTrip
pub mod Authentic
use Prim.Native.Nat.{bit_and, bit_xor}
use uav_omnet.Base.{
  ℕ, zero, suc, ◌+◌, ◌-◌, ◌*◌, ◌/◌, ◌%◌, ◌^◌, List, [], ◌∷◌, ◌++◌, Bytes, is_empty, if◌then◌else◌,
  length, take, drop, replicate,
}

abbrev pub key_bytes : ℕ
key_bytes = 16

abbrev pub nonce_bytes : ℕ
nonce_bytes = 16

abbrev pub tag_bytes : ℕ
tag_bytes = 16

abbrev pub rate_bytes : ℕ
rate_bytes = 16

abbrev pub word : ℕ
word = 2 ^ 64

abbrev pub iv : ℕ
iv = 0x80800c0800000000

abbrev rounds_a : ℕ
rounds_a = 12

abbrev pub rounds_b : ℕ
rounds_b = 8

abbrev pub round_constants : List ℕ
round_constants =
    0xf0 ∷ 0xe1 ∷ 0xd2 ∷ 0xc3 ∷ 0xb4 ∷ 0xa5 ∷ 0x96 ∷ 0x87 ∷ 0x78 ∷ 0x69 ∷ 0x5a ∷ 0x4b ∷ []

pub record AsconState : Type 0 where
  pub x0 : ℕ
  pub x1 : ℕ
  pub x2 : ℕ
  pub x3 : ℕ
  pub x4 : ℕ

-- The two parts have no bit in common, so that `|` is a sum.
unfoldable pub rotr : ℕ → ℕ → ℕ
rotr v n = (v / 2 ^ n + v * 2 ^ (64 - n)) % word

-- `~v`.
unfoldable pub inverted : ℕ → ℕ
inverted v = word - 1 - v

-- The loop of `load64be` and its result so far.
unfoldable pub load_from : ℕ → Bytes → ℕ
load_from v [] = v
load_from v (b ∷ rest) = load_from ((v * 256 + b) % word) rest

unfoldable pub load64be : Bytes → ℕ
load64be p = load_from 0 (take 8 p)

-- The loop of `store64be`, the last byte first.
unfoldable pub store_before : ℕ → ℕ → Bytes → Bytes
store_before zero v after = after
store_before (suc n) v after = store_before n (v / 256) (v % 256 ∷ after)

unfoldable pub store64be : ℕ → Bytes
store64be v = store_before 8 v []

-- The first lines of the substitution layer.
unfoldable pub mix : AsconState → AsconState
mix s = record s { x0 = bit_xor s.x0 s.x4; x4 = bit_xor s.x4 s.x3; x2 = bit_xor s.x2 s.x1 }

-- `t0` to `t4`, and what they are added to.
unfoldable pub chi : AsconState → AsconState
chi s = record {
  x0 = bit_xor s.x0 (bit_and (inverted s.x1) s.x2);
  x1 = bit_xor s.x1 (bit_and (inverted s.x2) s.x3);
  x2 = bit_xor s.x2 (bit_and (inverted s.x3) s.x4);
  x3 = bit_xor s.x3 (bit_and (inverted s.x4) s.x0);
  x4 = bit_xor s.x4 (bit_and (inverted s.x0) s.x1);
}

-- The last lines of the substitution layer.
unfoldable pub unmix : AsconState → AsconState
unmix s = record s {
  x1 = bit_xor s.x1 s.x0;
  x0 = bit_xor s.x0 s.x4;
  x3 = bit_xor s.x3 s.x2;
  x2 = inverted s.x2;
}

unfoldable pub diffuse : AsconState → AsconState
diffuse s = record {
  x0 = bit_xor (bit_xor s.x0 (rotr s.x0 19)) (rotr s.x0 28);
  x1 = bit_xor (bit_xor s.x1 (rotr s.x1 61)) (rotr s.x1 39);
  x2 = bit_xor (bit_xor s.x2 (rotr s.x2 1)) (rotr s.x2 6);
  x3 = bit_xor (bit_xor s.x3 (rotr s.x3 10)) (rotr s.x3 17);
  x4 = bit_xor (bit_xor s.x4 (rotr s.x4 7)) (rotr s.x4 41);
}

unfoldable pub ascon_round : AsconState → ℕ → AsconState
ascon_round s constant = diffuse (unmix (chi (mix (record s { x2 = bit_xor s.x2 constant }))))

unfoldable pub rounds_with : List ℕ → AsconState → AsconState
rounds_with [] s = s
rounds_with (c ∷ rest) s = rounds_with rest (ascon_round s c)

unfoldable pub permute : AsconState → ℕ → AsconState
permute s rounds = rounds_with (drop (rounds_a - rounds) round_constants) s

unfoldable pub initialise : Bytes → Bytes → AsconState
initialise key nonce =
    let k0 = load64be key in
    let k1 = load64be (drop 8 key) in
    let s =
      permute
        (record { x0 = iv; x1 = k0; x2 = k1; x3 = load64be nonce; x4 = load64be (drop 8 nonce) })
        rounds_a in
    record s { x3 = bit_xor s.x3 k0; x4 = bit_xor s.x4 k1 }

-- A block of the rate is added to the first two words.
unfoldable pub add_block : AsconState → Bytes → AsconState
add_block s block = record s {
  x0 = bit_xor s.x0 (load64be block);
  x1 = bit_xor s.x1 (load64be (drop 8 block));
}

-- The rest of the data, a byte 0x80 and zeros.
unfoldable pub padded : Bytes → Bytes
padded rest = rest ++ 0x80 ∷ replicate (rate_bytes - 1 - length rest) 0

-- As many full blocks as `ad` has, then the padded one.
unfoldable pub absorb_blocks : ℕ → AsconState → Bytes → AsconState
absorb_blocks zero s ad = permute (add_block s (padded ad)) rounds_b
absorb_blocks (suc n) s ad =
    absorb_blocks n (permute (add_block s (take rate_bytes ad)) rounds_b) (drop rate_bytes ad)

unfoldable pub absorb_associated_data : AsconState → Bytes → AsconState
absorb_associated_data s ad =
    let absorbed = if is_empty ad then s else absorb_blocks (length ad / rate_bytes) s ad in
    record absorbed { x4 = bit_xor absorbed.x4 1 }

-- The tag.
unfoldable pub finalise : AsconState → Bytes → Bytes
finalise s key =
    let k0 = load64be key in
    let k1 = load64be (drop 8 key) in
    let t = permute (record s { x2 = bit_xor s.x2 k0; x3 = bit_xor s.x3 k1 }) rounds_a in
    store64be (bit_xor t.x3 k0) ++ store64be (bit_xor t.x4 k1)

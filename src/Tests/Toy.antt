-- ===== src/Tests/Toy.antt =====
-- Small concrete operations in place of OpenSSL, the suite and the missing byte library; they do
-- what the theorems ask of them and have no cryptographic strength.
use Prim.Native.String.{String}
use Prim.Native.Char.{code}
use uav_omnet.Base.{
  or_empty, Bool, ◌-◌, ◌^◌, get_or, set, length-set, ℕ, ◌+◌, ◌*◌, ◌/◌, ◌%◌, ◌<◌, ◌≡◌, refl, ap,
  Option, none, some, [], ◌∷◌, ◌++◌, Bytes, bytes_eq, bytes_eq_refl, ◌==◌, if◌then◌else◌, length,
  drop, replicate, drop-append, length-replicate, arith,
}
use uav_omnet.Core.{CoreLib, IsBigEndian}
use uav_omnet.Crypto.Suite.{CryptoSuite, IsFunctional}
use uav_omnet.Crypto.X25519.{Ossl, IsDiffieHellman}
use uav_omnet.Tests.Encoding.{encode_fields, decode_fields}

unfoldable pub sum : Bytes → ℕ
sum [] = 0
sum (x ∷ xs) = x + sum xs

unfoldable pub pair_of : Bytes → Option ℕ
pair_of [] = none
pair_of (x ∷ []) = none
pair_of (x ∷ y ∷ rest) = some (x * 256 + y)

unfoldable pub quad_of : Bytes → Option ℕ
quad_of (a ∷ b ∷ c ∷ d ∷ rest) = some (((a * 256 + b) * 256 + c) * 256 + d)
quad_of [] = none
quad_of (a ∷ []) = none
quad_of (a ∷ b ∷ []) = none
quad_of (a ∷ b ∷ c ∷ []) = none

-- The code points of a text.
abbrev codes : String → Bytes
codes (String.◌∷◌ first rest) = code first ∷ codes rest
codes String.[] = []

-- Bits are packed with the highest first.
unfoldable pub get_bit : Bytes → ℕ → Bool
get_bit b i = get_or b (i / 8) 0 / 2 ^ (7 - i % 8) % 2 == 1

unfoldable pub set_bit : Bytes → ℕ → Bool → Bytes
set_bit b i v =
    let byte = get_or b (i / 8) 0 in
    let place = 2 ^ (7 - i % 8) in
    set b (i / 8) (byte - byte / place % 2 * place + (if v then place else 0))

pub length-set_bit : (b : Bytes) (i : ℕ) (v : Bool) → length (set_bit b i v) ≡ length b
unfolding set_bit
length-set_bit b i v = length-set b (i / 8) _

-- An exclusive or with the lowest bits of the second operand.
unfoldable pub flip : ℕ → ℕ → ℕ
flip a b = if b % 2 == 0 then a else if a % 2 == 0 then a + 1 else a - 1

abbrev and_then : ℕ → Option Bytes → Option Bytes
and_then a none = none
and_then a (some rest) = some (a ∷ rest)

unfoldable pub xor_bytes : Bytes → Bytes → Option Bytes
xor_bytes [] [] = some []
xor_bytes [] (y ∷ ys) = none
xor_bytes (x ∷ xs) [] = none
xor_bytes (x ∷ xs) (y ∷ ys) = and_then (flip x y) (xor_bytes xs ys)

flip_twice : (a b : ℕ) → flip (flip a b) b ≡ a
unfolding flip
flip_twice a b = ground arith

pub xor_bytes_cancel : (a b s : Bytes) → xor_bytes a b ≡ some s → xor_bytes s b ≡ some a
unfolding xor_bytes
xor_bytes_cancel [] [] s h = ground arith
xor_bytes_cancel [] (y ∷ ys) s h = absurd (ground arith)
xor_bytes_cancel (x ∷ xs) [] s h = absurd (ground arith)
xor_bytes_cancel (x ∷ xs) (y ∷ ys) s h =
    let rest = or_empty (xor_bytes xs ys) in
    let more : xor_bytes xs ys ≡ some rest = ground arith in
    ground (arith, flip_twice x y, xor_bytes_cancel xs ys rest more)

pub length-xor_bytes : (a b s : Bytes) → xor_bytes a b ≡ some s → length s ≡ length a
unfolding xor_bytes
length-xor_bytes [] [] s h = ground arith
length-xor_bytes [] (y ∷ ys) s h = absurd (ground arith)
length-xor_bytes (x ∷ xs) [] s h = absurd (ground arith)
length-xor_bytes (x ∷ xs) (y ∷ ys) s h =
    let rest = or_empty (xor_bytes xs ys) in
    let more : xor_bytes xs ys ≡ some rest = ground arith in
    ground (arith, length-xor_bytes xs ys rest more)

abbrev pub core : CoreLib
core = record {
  u16be = λ v. v / 256 % 256 ∷ v % 256 ∷ [];
  u32be = λ v. v / 16777216 % 256 ∷ v / 65536 % 256 ∷ v / 256 % 256 ∷ v % 256 ∷ [];
  read_u16be = λ b off. pair_of (drop off b);
  read_u32be = λ b off. quad_of (drop off b);
  length_prefixed = λ b. (length b / 256 % 256 ∷ length b % 256 ∷ []) ++ b;
  encode_fields = encode_fields;
  decode_fields = decode_fields;
  bytes_for_bits = λ n. (n + 7) / 8;
  get_bit = get_bit;
  set_bit = set_bit;
  xor_bytes = xor_bytes;
  from_string = codes;
  length_prefixed_text =
      λ s. (length (codes s) / 256 % 256 ∷ length (codes s) % 256 ∷ []) ++ codes s;
  domain_hash = 1;
  domain_mac = 2;
  domain_kdf = 3;
}

read_pair :
    (pre post : Bytes) (v : ℕ)
    → v < 65536
    → pair_of (drop (length pre) (pre ++ (v / 256 % 256 ∷ v % 256 ∷ post))) ≡ some v
unfolding pair_of
read_pair pre post v h =
    rw (drop-append pre (v / 256 % 256 ∷ v % 256 ∷ post)) (ap some (omega arith))

pub core-IsBigEndian : IsBigEndian core
unfolding quad_of drop
core-IsBigEndian = record {
  length-u16be = λ v. refl;
  length-u32be = λ v. refl;
  read_u16be-u16be = read_pair;
  read_u32be-u32be = λ v h. ap some (omega arith);
  length_prefixed_lem = λ b h. refl;
}

unfoldable pub mac : Bytes → Bytes → Bytes
mac key message = ((31 * sum key + sum message) % 256) ∷ []

unfoldable pub open_tagged : ℕ → Bytes → Option Bytes
open_tagged tag [] = none
open_tagged tag (t ∷ plaintext) = if t == tag then some plaintext else none

abbrev pub suite : CryptoSuite
suite = record {
  suite_id = 1;
  key_len = 4;
  mac_len = 1;
  aead_key_len = 2;
  aead_nonce_len = 2;
  mac = mac;
  mac_verify = λ key message tag. bytes_eq (mac key message) tag;
  kdf = λ ikm salt label info n. replicate n ((sum ikm + sum salt + sum info) % 256);
  extract = mac;
  aead_seal = λ key nonce aad plaintext. some ((sum key + sum nonce + sum aad) ∷ plaintext);
  aead_open = λ key nonce aad ciphertext. open_tagged (sum key + sum nonce + sum aad) ciphertext;
}

pub suite-IsFunctional : IsFunctional suite
unfolding open_tagged
suite-IsFunctional = record {
  mac_verify-mac = λ key message. bytes_eq_refl (mac key message);
  length-kdf = λ ikm salt label info n. length-replicate n ((sum ikm + sum salt + sum info) % 256);
  aead_open-aead_seal = λ key nonce aad plaintext k n.
      ((sum key + sum nonce + sum aad) ∷ plaintext, refl, ground arith);
}

abbrev pub ossl : Ossl
ossl = record {
  raw_public_key = λ seed. if length seed == 32 then some seed else none;
  raw_derive = λ a b. some ((sum a + sum b) ∷ []);
}

derives_one :
    (a b pa pb : Bytes)
    → length a ≡ 32
    → length b ≡ 32
    → ossl.raw_public_key a ≡ some pa
    → ossl.raw_public_key b ≡ some pb
    → (shared : Bytes) × (ossl.raw_derive a pb ≡ some shared) × (ossl.raw_derive b pa ≡ some shared)
derives_one a b pa pb la lb ha hb =
    let ea : a ≡ pa = ground arith in
    let eb : b ≡ pb = ground arith in
    ((sum a + sum pb) ∷ [], refl, ap (λ n. some (n ∷ [])) (omega (arith, ap sum ea, ap sum eb)))

pub ossl-IsDiffieHellman : IsDiffieHellman ossl
ossl-IsDiffieHellman = record {
  raw_public_key-total = λ seed h. (seed, rw h refl, h);
  raw_derive-agrees = derives_one;
}

unfoldable pub sha3_256 : Bytes → Bytes
sha3_256 b = replicate 32 (sum b % 256)

pub sha3_256-positive : (b : Bytes) → 0 < length (sha3_256 b)
unfolding sha3_256
sha3_256-positive b = omega (arith, length-replicate 32 (sum b % 256))

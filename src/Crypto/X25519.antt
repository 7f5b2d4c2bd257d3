-- ===== src/Crypto/X25519.antt =====
-- crypto/X25519.h and crypto/X25519.cc: key pairs and shared secrets. OpenSSL's raw operations are a
-- parameter; cleansing a buffer before it is freed or emptied leaves nothing to model.
use uav_omnet.Base.{
  ℕ, ◌≡◌, Bool, true, false, Option, none, some, [], ◌&&◌, Bytes, ◌==◌, if◌then◌else◌, length,
  arith,
}

abbrev pub x25519_key_len : ℕ
x25519_key_len = 32

pub record X25519KeyPair : Type 0 where
  pub secret : Bytes
  pub public_key : Bytes
  pub erased : Bool

-- A pair as it is declared.
abbrev pub no_key_pair : X25519KeyPair
no_key_pair = record { secret = []; public_key = []; erased = false }

unfoldable pub erase : X25519KeyPair → X25519KeyPair
erase pair = record pair { secret = []; erased = true }

-- OpenSSL: the public key of a raw private key, and the shared secret; `none` where it refuses.
pub record Ossl : Type 0 where
  pub raw_public_key : Bytes → Option Bytes
  pub raw_derive : Bytes → Bytes → Option Bytes

-- Every 32-byte string is a private key, with a public key of 32 bytes, and two honest parties
-- derive one secret (RFC 7748, which OpenSSL documents).
pub record IsDiffieHellman (o : Ossl) : Type 0 where
  pub raw_public_key-total :
      (seed : Bytes)
      → length seed ≡ 32
      → (key : Bytes) × (o.raw_public_key seed ≡ some key) × (length key ≡ 32)
  pub raw_derive-agrees :
      (a b pa pb : Bytes)
      → length a ≡ 32
      → length b ≡ 32
      → o.raw_public_key a ≡ some pa
      → o.raw_public_key b ≡ some pb
      → (shared : Bytes) × (o.raw_derive a pb ≡ some shared) × (o.raw_derive b pa ≡ some shared)

module _ (o : Ossl) where
  -- `none` is an exception.
  unfoldable pub x25519_generate : Bytes → Option X25519KeyPair
  x25519_generate seed =
      if length seed == x25519_key_len
      then elim (o.raw_public_key seed) [
        | none ↦ none
        | some key ↦ some (record { secret = seed; public_key = key; erased = false })
      ]
      else none

  -- `none` is the result false.
  unfoldable pub x25519_derive : Bytes → Bytes → Option Bytes
  x25519_derive secret peer_public =
      if length secret == x25519_key_len && length peer_public == x25519_key_len
      then o.raw_derive secret peer_public
      else none

  -- A generated pair holds the seed and a key of 32 bytes.
  pub x25519_generate-total :
      (dh : IsDiffieHellman o) (seed : Bytes)
      → length seed ≡ 32
      → (key : Bytes) × (o.raw_public_key seed ≡ some key)
        × (length key ≡ 32)
        × (x25519_generate seed ≡ some (record { secret = seed; public_key = key; erased = false }))
  unfolding x25519_generate
  x25519_generate-total dh seed h =
      let (key, public, size) = dh.raw_public_key-total seed h in (key, public, size, ground arith)

  pub x25519_derive-agrees :
      (dh : IsDiffieHellman o) (a b pa pb : Bytes)
      → length a ≡ 32
      → length b ≡ 32
      → length pa ≡ 32
      → length pb ≡ 32
      → o.raw_public_key a ≡ some pa
      → o.raw_public_key b ≡ some pb
      → (shared : Bytes) × (x25519_derive a pb ≡ some shared) × (x25519_derive b pa ≡ some shared)
  unfolding x25519_derive
  x25519_derive-agrees dh a b pa pb la lb lpa lpb ea eb =
      let (shared, left, right) = dh.raw_derive-agrees a b pa pb la lb ea eb in
      (shared, ground arith, ground arith)

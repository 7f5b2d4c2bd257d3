-- ===== src/Crypto/Suite.antt =====
-- crypto/CryptoSuite.h: the abstract suite that the protocol is written against.
-- Timing and cost counters are left out. A derived length is a key, tag or nonce length.
use Prim.Native.String.{String}
use uav_omnet.Base.{ℕ, ◌≡◌, Bool, true, Option, some, Bytes, length}

-- `none` is the result false of the authenticated encryption. The arguments of `kdf` are the key
-- material, the salt, the label, the info and the output length.
pub record CryptoSuite : Type 0 where
  pub suite_id : ℕ
  pub key_len : ℕ
  pub mac_len : ℕ
  pub aead_key_len : ℕ
  pub aead_nonce_len : ℕ
  pub mac : Bytes → Bytes → Bytes
  pub mac_verify : Bytes → Bytes → Bytes → Bool
  pub kdf : Bytes → Bytes → String → Bytes → ℕ → Bytes
  pub extract : Bytes → Bytes → Bytes
  pub aead_seal : Bytes → Bytes → Bytes → Bytes → Option Bytes
  pub aead_open : Bytes → Bytes → Bytes → Bytes → Option Bytes

-- What the protocol relies on when nobody interferes.
pub record IsFunctional (s : CryptoSuite) : Type 0 where
  pub mac_verify-mac : (key message : Bytes) → s.mac_verify key message (s.mac key message) ≡ true
  pub length-kdf :
      (ikm salt : Bytes) (label : String) (info : Bytes) (n : ℕ)
      → length (s.kdf ikm salt label info n) ≡ n
  pub aead_open-aead_seal :
      (key nonce aad plaintext : Bytes)
      → length key ≡ s.aead_key_len
      → length nonce ≡ s.aead_nonce_len
      → (ciphertext : Bytes) × (s.aead_seal key nonce aad plaintext ≡ some ciphertext)
        × (s.aead_open key nonce aad ciphertext ≡ some plaintext)

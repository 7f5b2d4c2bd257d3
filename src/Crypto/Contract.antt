-- ===== src/Crypto/Contract.antt =====
-- crypto/CryptoSuite.h: the operations of a suite as the implementations have them, with their
-- exceptions, and what the class documents of them.
use Prim.Native.String.{String}
use uav_omnet.Base.{ℕ, ◌≤◌, ◌<◌, ◌≡◌, Bool, true, Option, none, some, Bytes, length}

-- `none` is an exception of the first three operations, and the result false of the last two.
-- `kdf_limit` is the longest output that can be derived.
pub record SuiteOperations : Type 0 where
  pub mac_len : ℕ
  pub aead_key_len : ℕ
  pub aead_nonce_len : ℕ
  pub kdf_limit : ℕ
  pub mac : Bytes → Bytes → Option Bytes
  pub mac_verify : Bytes → Bytes → Bytes → Option Bool
  pub kdf : Bytes → Bytes → String → Bytes → ℕ → Option Bytes
  pub aead_seal : Bytes → Bytes → Bytes → Bytes → Option Bytes
  pub aead_open : Bytes → Bytes → Bytes → Bytes → Option Bytes

-- What the protocol asks of a suite (`Crypto.Suite`), within its limits: on the keys that its
-- authenticator takes (`IsKey`), on the key material, the salt, the label, the info and the length of a derivation
-- (`IsDerivable`), and on associated data with a plaintext (`IsSealable`).
pub record IsSuite (s : SuiteOperations) (IsKey : Bytes → Type 0)
    (IsDerivable : Bytes → Bytes → String → Bytes → ℕ → Type 0)
    (IsSealable : Bytes → Bytes → Type 0) : Type 0 where
  pub mac_verify-mac :
      (key message : Bytes)
      → IsKey key
      → (tag : Bytes) × (s.mac key message ≡ some tag)
        × (length tag ≡ s.mac_len)
        × (s.mac_verify key message tag ≡ some true)
  pub length-kdf :
      (ikm salt : Bytes) (label : String) (info : Bytes) (n : ℕ)
      → IsDerivable ikm salt label info n
      → n ≤ s.kdf_limit
      → (out : Bytes) × (s.kdf ikm salt label info n ≡ some out) × (length out ≡ n)
  pub kdf_refuses :
      (ikm salt : Bytes) (label : String) (info : Bytes) (n : ℕ)
      → s.kdf_limit < n
      → s.kdf ikm salt label info n ≡ none
  pub aead_open-aead_seal :
      (key nonce aad plaintext : Bytes)
      → IsSealable aad plaintext
      → length key ≡ s.aead_key_len
      → length nonce ≡ s.aead_nonce_len
      → (ciphertext : Bytes) × (s.aead_seal key nonce aad plaintext ≡ some ciphertext)
        × (s.aead_open key nonce aad ciphertext ≡ some plaintext)

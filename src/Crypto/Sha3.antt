-- ===== src/Crypto/Sha3.antt =====
-- crypto/Sha3Suite.h and crypto/Sha3Suite.cc: the software-efficient suite. The primitives are OpenSSL's
-- and parameters; timers, counters and names are left out.
pub mod Faithful
use Prim.Native.String.{String}
use uav_omnet.Base.{
  ℕ, ◌-◌, Bool, true, false, Option, none, some, [], ◌∷◌, ◌++◌, ◌&&◌, Bytes, bytes_eq, ◌==◌, ltb,
  if◌then◌else◌, length, take, drop, resize,
}
use uav_omnet.Core.{CoreLib}
use uav_omnet.Crypto.Contract.{SuiteOperations}

-- What the suite calls of OpenSSL; `none` is a failure. The arguments of `kmac256` are the key, the
-- message, the output length and the customisation, those of `hkdf` the key material, the salt, the
-- info and the output length. The cipher gives and takes the tag apart from the body.
pub record OsslPrimitives : Type 0 where
  pub sha3_256 : Bytes → Option Bytes
  pub hmac_sha3_256 : Bytes → Bytes → Option Bytes
  pub kmac256 : Bytes → Bytes → ℕ → Bytes → Option Bytes
  pub hkdf : Bytes → Bytes → Bytes → ℕ → Option Bytes
  pub hkdf_extract : Bytes → Bytes → Option Bytes
  pub chacha20poly1305_encrypt : Bytes → Bytes → Bytes → Bytes → Option (Bytes × Bytes)
  pub chacha20poly1305_decrypt : Bytes → Bytes → Bytes → Bytes → Bytes → Option Bytes

abbrev pub hash_len : ℕ
hash_len = 20

abbrev pub mac_len : ℕ
mac_len = 16

abbrev pub aead_key_len : ℕ
aead_key_len = 32

abbrev pub aead_nonce_len : ℕ
aead_nonce_len = 12

abbrev resized : ℕ → Option Bytes → Option Bytes
resized n none = none
resized n (some b) = some (resize n b)

module _ (ossl : OsslPrimitives) where
  -- `raw::chachaPoly1305Seal`: the tag follows the body.
  unfoldable pub chacha_poly1305_seal : Bytes → Bytes → Bytes → Bytes → Option Bytes
  chacha_poly1305_seal key nonce aad plaintext =
      elim (ossl.chacha20poly1305_encrypt key nonce aad plaintext) [
        | none ↦ none
        | some (ct, tag) ↦ some (ct ++ take 16 tag)
      ]

  -- `raw::chachaPoly1305Open`: nothing is handed back unless the tag verifies.
  unfoldable pub chacha_poly1305_open : Bytes → Bytes → Bytes → Bytes → Option Bytes
  chacha_poly1305_open key nonce aad ciphertext =
      if ltb (length ciphertext) 16
      then none
      else (let body_len = length ciphertext - 16 in
          ossl.chacha20poly1305_decrypt key nonce aad (take body_len ciphertext)
            (drop body_len ciphertext))

module _ (c : CoreLib) where
  -- The info that goes into the derivation.
  unfoldable pub full_info : String → Bytes → Bytes
  full_info label info = c.domain_kdf ∷ (c.length_prefixed_text label ++ c.length_prefixed info)

module _ (c : CoreLib) (ossl : OsslPrimitives) where
  unfoldable pub hash160 : Bytes → Option Bytes
  hash160 message = resized hash_len (ossl.sha3_256 (c.domain_hash ∷ c.length_prefixed message))

  -- `use_kmac` is the member `useKmac_`.
  unfoldable pub mac : Bool → Bytes → Bytes → Option Bytes
  mac use_kmac key message =
      let input = c.domain_mac ∷ message in
      if use_kmac
      then ossl.kmac256 key input mac_len (c.domain_mac ∷ [])
      else resized mac_len (ossl.hmac_sha3_256 key input)

  unfoldable pub mac_verify : Bool → Bytes → Bytes → Bytes → Option Bool
  mac_verify use_kmac key message tag =
      let input = c.domain_mac ∷ message in
      let expected =
        if use_kmac
        then ossl.kmac256 key input mac_len (c.domain_mac ∷ [])
        else resized mac_len (ossl.hmac_sha3_256 key input) in
      if length tag == mac_len
      then elim expected [ none ↦ none | some e ↦ some (bytes_eq (take mac_len e) tag) ]
      else some false

  unfoldable pub kdf : Bytes → Bytes → String → Bytes → ℕ → Option Bytes
  kdf ikm salt label info out_len = ossl.hkdf ikm salt (full_info c label info) out_len

  unfoldable pub extract : Bytes → Bytes → Option Bytes
  extract salt source = ossl.hkdf_extract salt source

module _ (ossl : OsslPrimitives) where
  unfoldable pub aead_seal : Bytes → Bytes → Bytes → Bytes → Option Bytes
  aead_seal key nonce aad plaintext =
      if length key == aead_key_len && length nonce == aead_nonce_len
      then chacha_poly1305_seal ossl key nonce aad plaintext
      else none

  unfoldable pub aead_open : Bytes → Bytes → Bytes → Bytes → Option Bytes
  aead_open key nonce aad ciphertext =
      if length key == aead_key_len && length nonce == aead_nonce_len
      then chacha_poly1305_open ossl key nonce aad ciphertext
      else none

-- The suite; `kdf_limit` is that of HKDF (RFC 5869), 255 outputs of the hash.
abbrev pub sha3_suite : CoreLib → OsslPrimitives → Bool → SuiteOperations
sha3_suite c ossl use_kmac = record {
  mac_len = mac_len;
  aead_key_len = aead_key_len;
  aead_nonce_len = aead_nonce_len;
  kdf_limit = 8160;
  mac = mac c ossl use_kmac;
  mac_verify = mac_verify c ossl use_kmac;
  kdf = kdf c ossl;
  aead_seal = aead_seal ossl;
  aead_open = aead_open ossl;
}

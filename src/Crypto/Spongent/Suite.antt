-- ===== src/Crypto/Spongent/Suite.antt =====
-- crypto/SpongentSuite.h and crypto/SpongentSuite.cc: the constrained suite, over the sponge and
-- Ascon-128a. Timers and counters are left out.
use Prim.Native.String.{String}
use uav_omnet.Base.{
  ℕ, Bool, false, Option, none, some, [], ◌∷◌, ◌++◌, ◌&&◌, Bytes, bytes_eq, bytes_eq_refl, ◌==◌,
  ltb, if◌then◌else◌, length, arith,
}
use uav_omnet.Core.{CoreLib}
use uav_omnet.Crypto.Contract.{SuiteOperations, IsSuite}
use uav_omnet.Crypto.Label
use uav_omnet.Crypto.Spongent.Sponge.{hash, sponge_absorb_squeeze, sponge_absorb_squeeze-total}
use uav_omnet.Crypto.Ascon.Cipher.{ascon128a_encrypt, ascon128a_decrypt}
use uav_omnet.Crypto.Ascon.Words.{AllBytes}
use uav_omnet.Crypto.Ascon.RoundTrip.{length-ascon128a_encrypt, ascon128a_decrypt-ascon128a_encrypt}

abbrev pub suite_version : ℕ
suite_version = 0x01

abbrev pub mac_len : ℕ
mac_len = 16

abbrev pub key_len : ℕ
key_len = 32

abbrev pub aead_key_len : ℕ
aead_key_len = 16

abbrev pub aead_nonce_len : ℕ
aead_nonce_len = 16

module _ (c : CoreLib) where
  unfoldable pub hash160 : Bytes → Option Bytes
  hash160 message = hash (c.domain_hash ∷ c.length_prefixed message)

  unfoldable pub mac_raw : Bytes → Bytes → Option Bytes
  mac_raw key message =
      sponge_absorb_squeeze (c.domain_mac ∷ suite_version ∷ (c.length_prefixed key ++ message))
        mac_len

  unfoldable pub mac : Bytes → Bytes → Option Bytes
  mac key message = mac_raw key message

  unfoldable pub mac_verify : Bytes → Bytes → Bytes → Option Bool
  mac_verify key message tag =
      if length tag == mac_len
      then elim (mac_raw key message) [ none ↦ none | some expected ↦ some (bytes_eq expected tag) ]
      else some false

  -- What the key derivation absorbs.
  unfoldable pub kdf_input : Bytes → Bytes → String → Bytes → ℕ → Bytes
  kdf_input ikm salt label info out_len =
      c.domain_kdf
      ∷ suite_version
      ∷ (c.length_prefixed ikm
          ++ (c.length_prefixed salt
              ++ (c.length_prefixed_text label ++ (c.length_prefixed info ++ c.u16be out_len))))

  -- `none` is the exception on a length that two bytes do not hold.
  unfoldable pub kdf_raw : Bytes → Bytes → String → Bytes → ℕ → Option Bytes
  kdf_raw ikm salt label info out_len =
      if ltb 0xFFFF out_len
      then none
      else sponge_absorb_squeeze (kdf_input ikm salt label info out_len) out_len

  unfoldable pub kdf : Bytes → Bytes → String → Bytes → ℕ → Option Bytes
  kdf ikm salt label info out_len = kdf_raw ikm salt label info out_len

  unfoldable pub extract : Bytes → Bytes → Option Bytes
  extract salt source = kdf_raw source salt Label.fe_extract [] key_len

unfoldable pub aead_seal : Bytes → Bytes → Bytes → Bytes → Option Bytes
aead_seal key nonce aad plaintext =
    if length key == aead_key_len && length nonce == aead_nonce_len
    then ascon128a_encrypt key nonce aad plaintext
    else none

unfoldable pub aead_open : Bytes → Bytes → Bytes → Bytes → Option Bytes
aead_open key nonce aad ciphertext =
    if length key == aead_key_len && length nonce == aead_nonce_len
    then ascon128a_decrypt key nonce aad ciphertext
    else none

-- The suite; a derived length fits two bytes.
abbrev pub spongent_suite : CoreLib → SuiteOperations
spongent_suite c = record {
  mac_len = mac_len;
  aead_key_len = aead_key_len;
  aead_nonce_len = aead_nonce_len;
  kdf_limit = 0xFFFF;
  mac = mac c;
  mac_verify = mac_verify c;
  kdf = kdf c;
  aead_seal = aead_seal;
  aead_open = aead_open;
}

-- The constrained suite does what the protocol asks of a suite: it accepts its own authenticators, it
-- derives as many bytes as are asked for up to 65535 and refuses more, and it opens what it sealed.
pub spongent-IsSuite :
    (c : CoreLib)
    → IsSuite
        (spongent_suite c)
        (λ key. Unit)
        (λ ikm salt label info n. Unit)
        (λ aad plaintext. AllBytes plaintext)
unfolding mac mac_raw mac_verify kdf kdf_raw aead_seal aead_open
spongent-IsSuite c = record {
  mac_verify-mac = λ key message any.
      let (tag, made, size) =
        sponge_absorb_squeeze-total
          (c.domain_mac ∷ suite_version ∷ (c.length_prefixed key ++ message)) 16 in
      (tag, made, size, ground (arith, made, size, bytes_eq_refl tag));
  length-kdf = λ ikm salt label info n any h.
      let (out, made, size) = sponge_absorb_squeeze-total (kdf_input c ikm salt label info n) n in
      (out, ground (arith, made), size);
  kdf_refuses = λ ikm salt label info n h. ground arith;
  aead_open-aead_seal = λ key nonce aad plaintext all k n.
      let (ct, made, size) = length-ascon128a_encrypt key nonce aad plaintext all k n in
      (
        ct,
        ground (arith, made),
        ground (arith, ascon128a_decrypt-ascon128a_encrypt key nonce aad plaintext ct all made),
      );
}

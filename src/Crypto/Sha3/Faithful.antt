-- ===== src/Crypto/Sha3/Faithful.antt =====
-- crypto/Sha3Suite.cc over OpenSSL: what the class `CryptoSuite` documents of it.
use Prim.Native.String.{String}
use uav_omnet.Base.{
  ℕ, ◌-◌, ◌≤◌, ◌<◌, ◌≡◌, ap, sym, ◌∙◌, zero, suc, ltb, length-drop, take-append-drop, refl, Bool,
  true, false, none, some, [], ◌∷◌, ◌++◌, Bytes, bytes_eq_refl, length, take, drop, resize,
  length-take, length-append, take-append, drop-append, arith,
}
use uav_omnet.Core.{CoreLib}
use uav_omnet.Crypto.Contract.{IsSuite}
use uav_omnet.Crypto.Sha3.{
  OsslPrimitives, mac, mac_verify, kdf, full_info, aead_seal, aead_open, chacha_poly1305_seal,
  chacha_poly1305_open, sha3_suite,
}

-- The documented behaviour of OpenSSL's primitives. An HMAC over SHA3-256 has 32 bytes. A KMAC takes a key
-- of 4 to 512 bytes and a customisation of up to 127, and has as many bytes as are asked for, here 16. HKDF
-- takes key material that is not empty, a salt below 2^31 bytes and an info of up to 1024 bytes, and gives
-- from one byte to 255 outputs of its hash. The cipher, whose lengths are `int`s and whose tag has 16 bytes, takes back
-- what it gave.
pub record IsOssl (ossl : OsslPrimitives) : Type 0 where
  pub hmac_sha3_256-total :
      (key message : Bytes)
      → length key < 0x80000000
      → (out : Bytes) × (ossl.hmac_sha3_256 key message ≡ some out) × (length out ≡ 32)
  pub kmac256-total :
      (key message custom : Bytes)
      → 4 ≤ length key
      → length key ≤ 512
      → length custom ≤ 127
      → (out : Bytes) × (ossl.kmac256 key message 16 custom ≡ some out) × (length out ≡ 16)
  pub hkdf-total :
      (ikm salt info : Bytes) (n : ℕ)
      → 0 < length ikm
      → length salt < 0x80000000
      → length info ≤ 1024
      → 0 < n
      → n ≤ 8160
      → (out : Bytes) × (ossl.hkdf ikm salt info n ≡ some out) × (length out ≡ n)
  pub hkdf_refuses : (ikm salt info : Bytes) (n : ℕ) → 8160 < n → ossl.hkdf ikm salt info n ≡ none
  pub decrypt-encrypt :
      (key nonce aad plaintext : Bytes)
      → length key ≡ 32
      → length nonce ≡ 12
      → length aad < 0x80000000
      → length plaintext < 0x80000000
      → (ct : Bytes) × (tag : Bytes) × (ossl.chacha20poly1305_encrypt key nonce aad plaintext
          ≡ some (ct, tag))
        × (length tag ≡ 16)
        × (ossl.chacha20poly1305_decrypt key nonce aad ct tag ≡ some plaintext)

-- The keys that the authenticator takes, a KMAC or an HMAC.
abbrev pub IsMacKey : Bool → Bytes → Type 0
IsMacKey true key = (4 ≤ length key) × (length key ≤ 512)
IsMacKey false key = length key < 0x80000000

-- What HKDF takes.
abbrev pub IsHkdfRequest : CoreLib → Bytes → Bytes → String → Bytes → ℕ → Type 0
IsHkdfRequest c ikm salt label info n =
    (0 < length ikm)
    × (length salt < 0x80000000)
    × (length (full_info c label info) ≤ 1024)
    × (0 < n)

-- What the cipher takes.
abbrev pub IsCipherInput : Bytes → Bytes → Type 0
IsCipherInput aad plaintext = (length aad < 0x80000000) × (length plaintext < 0x80000000)

take_all : (b : Bytes) (n : ℕ) → length b ≡ n → take n b ≡ b
unfolding take
take_all [] zero h = refl
take_all [] (suc n) h = refl
take_all (x ∷ b) zero h = absurd (omega arith)
take_all (x ∷ b) (suc n) h = ap (◌∷◌ x) (take_all b n (omega arith))

module _ (c : CoreLib) (ossl : OsslPrimitives) (is : IsOssl ossl) where
  mac-total :
      (use_kmac : Bool) (key message : Bytes)
      → IsMacKey use_kmac key
      → (tag : Bytes) × (mac c ossl use_kmac key message ≡ some tag) × (length tag ≡ 16)
  unfolding mac resize
  mac-total true key message (long, short) =
      is.kmac256-total key (c.domain_mac ∷ message) (c.domain_mac ∷ []) long short (omega arith)
  mac-total false key message short =
      let (out, made, size) = is.hmac_sha3_256-total key (c.domain_mac ∷ message) short in
      (take 16 out, ground (arith, made), length-take 16 out (omega arith))

  chacha_opens :
      (key nonce aad plaintext : Bytes)
      → length key ≡ 32
      → length nonce ≡ 12
      → IsCipherInput aad plaintext
      → (ciphertext : Bytes) × (chacha_poly1305_seal ossl key nonce aad plaintext ≡ some ciphertext)
        × (chacha_poly1305_open ossl key nonce aad ciphertext ≡ some plaintext)
  unfolding chacha_poly1305_seal chacha_poly1305_open
  chacha_opens key nonce aad plaintext k n (aad_fits, plaintext_fits) =
      let (ct, tag, made, size, opens) =
        is.decrypt-encrypt key nonce aad plaintext k n aad_fits plaintext_fits in
      let whole = take_all tag 16 size in
      let at : length (ct ++ tag) - 16 ≡ length ct = omega (arith, length-append ct tag, size) in
      let body : take (length (ct ++ tag) - 16) (ct ++ tag) ≡ ct =
        ap (λ i. take i (ct ++ tag)) at ∙ take-append ct tag in
      let rest : drop (length (ct ++ tag) - 16) (ct ++ tag) ≡ tag =
        ap (λ i. drop i (ct ++ tag)) at ∙ drop-append ct tag in
      let long : ltb (length (ct ++ tag)) 16 ≡ false = ground (arith, length-append ct tag, size) in
      (ct ++ tag, ground (arith, made, whole), ground (arith, long, body, rest, opens))

  -- The software suite over OpenSSL does what the protocol asks of a suite. It accepts its own
  -- authenticators of 16 bytes, with a KMAC under keys of 4 to 512 bytes and with an HMAC under keys below
  -- 2^31 bytes. From key material that is not empty, a salt below 2^31 bytes, and a label and an info that make up to
  -- 1024 bytes, it derives as many bytes as are asked for, from 1 to 8160; it refuses more. It opens what it
  -- sealed, for inputs below 2^31 bytes.
  pub sha3-IsSuite :
      (use_kmac : Bool)
      → IsSuite (sha3_suite c ossl use_kmac) (IsMacKey use_kmac) (IsHkdfRequest c) IsCipherInput
  unfolding mac mac_verify kdf aead_seal aead_open
  sha3-IsSuite use_kmac = record {
    mac_verify-mac = λ key message takes.
        let (tag, made, size) = mac-total use_kmac key message takes in
        (tag, made, size, ground (arith, made, size, take_all tag 16 size, bytes_eq_refl tag));
    length-kdf = λ ikm salt label info n (some_ikm, short, fits, some_n) h.
        is.hkdf-total ikm salt (full_info c label info) n some_ikm short fits some_n h;
    kdf_refuses = λ ikm salt label info n h. is.hkdf_refuses ikm salt (full_info c label info) n h;
    aead_open-aead_seal = λ key nonce aad plaintext takes k n.
        let (ct, made, opens) = chacha_opens key nonce aad plaintext k n takes in
        (ct, ground (arith, made), ground (arith, opens));
  }

  -- A ciphertext that opens has a body and a tag of 16 bytes that the cipher verifies together.
  pub aead_open_authentic :
      (key nonce aad ciphertext plaintext : Bytes)
      → aead_open ossl key nonce aad ciphertext ≡ some plaintext
      → (body : Bytes) × (tag : Bytes) × (ciphertext ≡ body ++ tag)
        × (length tag ≡ 16)
        × (ossl.chacha20poly1305_decrypt key nonce aad body tag ≡ some plaintext)
  unfolding aead_open chacha_poly1305_open
  aead_open_authentic key nonce aad ciphertext plaintext h =
      let body_len = length ciphertext - 16 in
      let long : 16 ≤ length ciphertext = ground arith in
      (
        take body_len ciphertext,
        drop body_len ciphertext,
        sym (take-append-drop body_len ciphertext),
        omega (arith, length-drop body_len ciphertext, long),
        ground arith,
      )

-- ===== src/Tests/Sha3.antt =====
-- The software suite over small operations that have the lengths of OpenSSL's and no strength.
use uav_omnet.Base.{
  ◌+◌, refl, true, none, some, Bytes, ltb, ◌||◌, if◌then◌else◌, length, replicate, length-replicate,
  bytes_eq, bytes_eq_refl, arith,
}
use uav_omnet.Crypto.Contract.{IsSuite}
use uav_omnet.Crypto.Sha3.{OsslPrimitives, sha3_suite}
use uav_omnet.Crypto.Sha3.Faithful.{IsOssl, IsMacKey, IsHkdfRequest, IsCipherInput, sha3-IsSuite}
use uav_omnet.Tests.Toy.{core, sum}

-- A tag that depends on the inputs.
abbrev tag_of : Bytes → Bytes → Bytes → Bytes → Bytes
tag_of key nonce aad plaintext = replicate 16 (sum key + sum nonce + sum aad + sum plaintext)

abbrev primitives : OsslPrimitives
primitives = record {
  sha3_256 = λ b. some (replicate 32 (sum b));
  hmac_sha3_256 = λ key message. some (replicate 32 (sum key + sum message));
  kmac256 = λ key message n custom.
      if ltb (length key) 4 || ltb 512 (length key)
      then none
      else some (replicate n (sum key + sum message + sum custom));
  hkdf = λ ikm salt info n.
      if ltb 8160 n then none else some (replicate n (sum ikm + sum salt + sum info));
  hkdf_extract = λ salt source. some (replicate 32 (sum salt + sum source));
  chacha20poly1305_encrypt =
      λ key nonce aad plaintext. some (plaintext, tag_of key nonce aad plaintext);
  chacha20poly1305_decrypt = λ key nonce aad body tag.
      if bytes_eq (tag_of key nonce aad body) tag then some body else none;
}

primitives-IsOssl : IsOssl primitives
primitives-IsOssl = record {
  hmac_sha3_256-total = λ key message short.
      (replicate 32 (sum key + sum message), refl, length-replicate 32 (sum key + sum message));
  kmac256-total = λ key message custom long short small. (
    replicate 16 (sum key + sum message + sum custom),
    ground (arith, long, short),
    length-replicate 16 (sum key + sum message + sum custom),
  );
  hkdf-total = λ ikm salt info n some_ikm short fits some_n h. (
    replicate n (sum ikm + sum salt + sum info),
    ground (arith, h),
    length-replicate n (sum ikm + sum salt + sum info),
  );
  hkdf_refuses = λ ikm salt info n h. ground (arith, h);
  decrypt-encrypt = λ key nonce aad plaintext k n aad_fits plaintext_fits. (
    plaintext,
    tag_of key nonce aad plaintext,
    refl,
    length-replicate 16 (sum key + sum nonce + sum aad + sum plaintext),
    ground (arith, bytes_eq_refl (tag_of key nonce aad plaintext)),
  );
}

sha3-IsSuite_example :
    IsSuite (sha3_suite core primitives true) (IsMacKey true) (IsHkdfRequest core) IsCipherInput
sha3-IsSuite_example = sha3-IsSuite core primitives primitives-IsOssl true

-- ===== src/Crypto/Signature.antt =====
-- crypto/SignatureSuite.h: the abstract signature suite. A key pair is OpenSSL's `EVP_PKEY`, here the
-- type `Key`; an invalid pair and a null pointer are `none`. Moving a pair transfers its pointer.
use Prim.Native.String.{String}
use text.Mathlib.Text.{◌==◌ as str_eq}
use uav_omnet.Base.{◌≡◌, Bool, true, Option, none, some, Bytes, if◌then◌else◌}

abbrev pub valid {ℓ} : {Key : Type ℓ} → Option Key → Bool
valid none = Bool.false
valid (some key) = true

pub record SignatureSuite (Key : Type 0) : Type 0 where
  pub public_key_bytes : Option Key → Bytes
  pub key_from_public_bytes : Bytes → Option Key
  pub sign : Option Key → Bytes → Bytes
  pub verify : Key → Bytes → Bytes → Bool

-- A signature verifies under the public half of the pair that made it (tests/test_signature_suite.cc).
pub record IsCorrect {Key : Type 0} (s : SignatureSuite Key) : Type 0 where
  pub verify-sign :
      (pair public : Key) (message : Bytes)
      → s.key_from_public_bytes (s.public_key_bytes (some pair)) ≡ some public
      → s.verify public message (s.sign (some pair) message) ≡ true

-- `makeSignatureSuite`, over the two suites; `none` is its exception.
unfoldable pub make_signature_suite :
    {Key : Type 0} → SignatureSuite Key → SignatureSuite Key → String → Option (SignatureSuite Key)
make_signature_suite rsa ecdsa name =
    if str_eq name "rsa2048"
    then some rsa
    else if str_eq name "ecdsa-p256"
    then some ecdsa
    else none

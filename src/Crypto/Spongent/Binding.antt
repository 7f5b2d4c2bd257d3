-- ===== src/Crypto/Spongent/Binding.antt =====
-- crypto/SpongentSuite.cc, `kdfRaw`: what the key derivation absorbs tells its arguments apart.
use Prim.Native.String.{String}
use mathlib.Core.List.{append_assoc, append-nil}
use uav_omnet.Base.{
  ℕ, ◌<◌, ◌≡◌, ◌∙◌, ap, sym, refl, some, [], ◌∷◌, ◌++◌, Bytes, length, drop, arith,
}
use uav_omnet.Core.{CoreLib, IsBigEndian}
use uav_omnet.Crypto.Spongent.Suite.{kdf_input}

append_splits : (u v x y : Bytes) → length u ≡ length v → u ++ x ≡ v ++ y → (u ≡ v) × (x ≡ y)
append_splits [] [] x y h e = (refl, e)
append_splits [] (b ∷ v) x y h e = absurd (omega (arith, h))
append_splits (a ∷ u) [] x y h e = absurd (omega (arith, h))
append_splits (a ∷ u) (b ∷ v) x y h e =
    let head : a ≡ b = ground (arith, e) in
    let tail : u ++ x ≡ v ++ y = ground (arith, e) in
    let (same, rest) = append_splits u v x y (omega (arith, h)) tail in (rw (head, same) refl, rest)

-- The arguments of the key derivation.
pub record KdfRequest : Type 0 where
  pub ikm : Bytes
  pub salt : Bytes
  pub label : String
  pub info : Bytes
  pub out_len : ℕ

abbrev pub input_of : CoreLib → KdfRequest → Bytes
input_of c r = kdf_input c r.ikm r.salt r.label r.info r.out_len

pub record IsShort (c : CoreLib) (r : KdfRequest) : Type 0 where
  pub ikm : length r.ikm < 65536
  pub salt : length r.salt < 65536
  pub label : length (c.from_string r.label) < 65536
  pub info : length r.info < 65536
  pub out_len : r.out_len < 65536

module _ (c : CoreLib) (big_endian : IsBigEndian c) where
  -- Two-byte integers at the front of equal strings are equal.
  u16be_splits :
      (n m : ℕ) (x y : Bytes)
      → n < 65536
      → m < 65536
      → c.u16be n ++ x ≡ c.u16be m ++ y
      → (n ≡ m) × (x ≡ y)
  u16be_splits n m x y hn hm same =
      let left : c.read_u16be (c.u16be n ++ x) 0 ≡ some n = big_endian.read_u16be-u16be [] x n hn in
      let right : c.read_u16be (c.u16be m ++ y) 0 ≡ some m =
        big_endian.read_u16be-u16be [] y m hm in
      let equal : n ≡ m = ground (arith, sym left ∙ ap (λ b. c.read_u16be b 0) same ∙ right) in
      (
        equal,
        (append_splits (c.u16be n) (c.u16be m) x y
            (big_endian.length-u16be n ∙ sym (big_endian.length-u16be m)) same).1,
      )

  -- A length prefix and what it counts come off the front of a string.
  prefixed_splits :
      (a b x y : Bytes)
      → length a < 65536
      → length b < 65536
      → c.length_prefixed a ++ x ≡ c.length_prefixed b ++ y
      → (a ≡ b) × (x ≡ y)
  prefixed_splits a b x y la lb same =
      let front : c.u16be (length a) ++ (a ++ x) ≡ c.u16be (length b) ++ (b ++ y) =
        sym (append_assoc (c.u16be (length a)) a x)
        ∙ ap (λ t. t ++ x) (sym (big_endian.length_prefixed_lem a la))
        ∙ same
        ∙ ap (λ t. t ++ y) (big_endian.length_prefixed_lem b lb)
        ∙ append_assoc (c.u16be (length b)) b y in
      let (size, rest) = u16be_splits (length a) (length b) (a ++ x) (b ++ y) la lb front in
      append_splits a b x y size rest

  -- Two derivations absorb the same bytes only if their key material, salt, label, info and length are
  -- the same, as far as each is shorter than 65536 bytes, the length is below 65536, and a text is
  -- prefixed as its bytes. So no key is the beginning of a longer one from the same material.
  pub kdf_input_binds :
      (text : (label : String)
        → c.length_prefixed_text label ≡ c.length_prefixed (c.from_string label))
      (a b : KdfRequest)
      → IsShort c a
      → IsShort c b
      → input_of c a ≡ input_of c b
      → (a.ikm ≡ b.ikm)
        × (a.salt ≡ b.salt)
        × (c.from_string a.label ≡ c.from_string b.label)
        × (a.info ≡ b.info)
        × (a.out_len ≡ b.out_len)
  unfolding kdf_input drop
  kdf_input_binds text a b sa sb same =
      let (ikm, after_ikm) = prefixed_splits a.ikm b.ikm _ _ sa.ikm sb.ikm (ap (drop 2) same) in
      let (salt, after_salt) = prefixed_splits a.salt b.salt _ _ sa.salt sb.salt after_ikm in
      let (label, after_label) =
        prefixed_splits (c.from_string a.label) (c.from_string b.label) _ _ sa.label sb.label
          (rw (sym (text a.label), sym (text b.label)) after_salt) in
      let (info, after_info) = prefixed_splits a.info b.info _ _ sa.info sb.info after_label in
      let (out_len, rest) =
        u16be_splits a.out_len b.out_len [] [] sa.out_len sb.out_len
          (rw (append-nil (c.u16be a.out_len), append-nil (c.u16be b.out_len)) after_info) in
      (ikm, salt, label, info, out_len)

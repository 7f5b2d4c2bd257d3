-- ===== src/Crypto/Ascon/Words.antt =====
-- crypto/ascon/Ascon128a.cc: words and their bytes.
use Prim.Native.Nat.{bit_and, bit_xor}
use uav_omnet.Base.{
  ℕ, zero, suc, ◌+◌, ◌*◌, ◌/◌, ◌%◌, ◌<◌, ◌≡◌, refl, ap, ◌∙◌, [], ◌∷◌, ◌++◌, Bytes, length, take,
  arith,
}
use uav_omnet.Base.Words.{
  two_to, bit_xor-lt, bit_and-lt, bit_xor_cancel_left, bit_xor-zero, byte-bit_xor,
  above_byte-bit_xor,
}
use uav_omnet.Crypto.Ascon.{word, rotr, inverted, load_from, load64be, store_before, store64be}
use uav_omnet.Crypto.Ascon.Cipher.{xor_each}

abbrev pub AllBytes : Bytes → Type 0
AllBytes [] = Unit
AllBytes (x ∷ xs) = (x < 256) × AllBytes xs

pub xor-lt_word : (a b : ℕ) → a < word → b < word → bit_xor a b < word
unfolding two_to
xor-lt_word a b ha hb = bit_xor-lt 64 a b ha hb

pub and-lt_word : (a b : ℕ) → a < word → bit_and a b < word
unfolding two_to
and-lt_word a b ha = bit_and-lt 64 a b ha

pub xor_twice_word : (a b : ℕ) → a < word → b < word → bit_xor a (bit_xor a b) ≡ b
unfolding two_to
xor_twice_word a b ha hb = bit_xor_cancel_left 64 a b ha hb

pub byte_twice : (a b : ℕ) → a < 256 → b < 256 → bit_xor a (bit_xor a b) ≡ b
unfolding two_to
byte_twice a b ha hb = bit_xor_cancel_left 8 a b ha hb

pub byte-zero : (a : ℕ) → a < 256 → bit_xor a 0 ≡ a
unfolding two_to
byte-zero a h = bit_xor-zero 8 a h

pub rotr-lt : (v n : ℕ) → rotr v n < word
unfolding rotr
rotr-lt v n = omega arith

pub inverted-lt : (v : ℕ) → inverted v < word
unfolding inverted
inverted-lt v = omega arith

load_from-lt : (v : ℕ) (p : Bytes) → v < word → load_from v p < word
unfolding load_from
load_from-lt v [] h = h
load_from-lt v (b ∷ rest) h = load_from-lt ((v * 256 + b) % word) rest (omega arith)

pub load64be-lt : (p : Bytes) → load64be p < word
unfolding load64be
load64be-lt p = load_from-lt 0 (take 8 p) (omega arith)

pub length-store64be : (v : ℕ) → length (store64be v) ≡ 8
unfolding store64be store_before
length-store64be v = refl

-- A word that is stored and loaded again.
pub load64be-store64be : (v : ℕ) (after : Bytes) → v < word → load64be (store64be v ++ after) ≡ v
unfolding load64be store64be store_before load_from take
load64be-store64be v after h = omega arith

-- A byte comes off the end of a word.
store_before-next :
    (n v b : ℕ) (after : Bytes)
    → b < 256
    → store_before (suc n) (v * 256 + b) after ≡ store_before n v (b ∷ after)
unfolding store_before
store_before-next n v b after h =
    let high : (v * 256 + b) / 256 ≡ v = omega arith in
    let low : (v * 256 + b) % 256 ≡ b = omega arith in rw (high, low) refl

-- Eight bytes that are loaded and stored again.
pub store64be-load64be : (p : Bytes) → AllBytes p → length p ≡ 8 → store64be (load64be p) ≡ p
unfolding load64be store64be store_before load_from take
store64be-load64be (a ∷ b ∷ c ∷ d ∷ e ∷ f ∷ g ∷ h ∷ [])
      (pa, (pb, (pc, (pd, (pe, (pf, (pg, (ph, u)))))))) size =
    let v2 = a * 256 + b in
    let v3 = v2 * 256 + c in
    let v4 = v3 * 256 + d in
    let v5 = v4 * 256 + e in
    let v6 = v5 * 256 + f in
    let v7 = v6 * 256 + g in
    let value : load64be (a ∷ b ∷ c ∷ d ∷ e ∷ f ∷ g ∷ h ∷ []) ≡ v7 * 256 + h = omega arith in
    rw value (
      store_before-next 7 v7 h [] ph
      ∙ store_before-next 6 v6 g _ pg
      ∙ store_before-next 5 v5 f _ pf
      ∙ store_before-next 4 v4 e _ pe
      ∙ store_before-next 3 v3 d _ pd
      ∙ store_before-next 2 v2 c _ pc
      ∙ store_before-next 1 a b _ pb
      ∙ ap (λ t. t ∷ b ∷ c ∷ d ∷ e ∷ f ∷ g ∷ h ∷ []) (omega (arith, pa)))
store64be-load64be [] all size = absurd (omega (arith, size))
store64be-load64be (a ∷ []) all size = absurd (omega (arith, size))
store64be-load64be (a ∷ b ∷ []) all size = absurd (omega (arith, size))
store64be-load64be (a ∷ b ∷ c ∷ []) all size = absurd (omega (arith, size))
store64be-load64be (a ∷ b ∷ c ∷ d ∷ []) all size = absurd (omega (arith, size))
store64be-load64be (a ∷ b ∷ c ∷ d ∷ e ∷ []) all size = absurd (omega (arith, size))
store64be-load64be (a ∷ b ∷ c ∷ d ∷ e ∷ f ∷ []) all size = absurd (omega (arith, size))
store64be-load64be (a ∷ b ∷ c ∷ d ∷ e ∷ f ∷ g ∷ []) all size = absurd (omega (arith, size))
store64be-load64be (a ∷ b ∷ c ∷ d ∷ e ∷ f ∷ g ∷ h ∷ i ∷ p) all size = absurd (omega (arith, size))

-- The bytes of an exclusive or.
pub xor_each-append :
    (a b c d : Bytes)
    → length a ≡ length b
    → xor_each (a ++ c) (b ++ d) ≡ xor_each a b ++ xor_each c d
unfolding xor_each
xor_each-append [] [] c d h = refl
xor_each-append [] (y ∷ b) c d h = absurd (omega (arith, h))
xor_each-append (x ∷ a) [] c d h = absurd (omega (arith, h))
xor_each-append (x ∷ a) (y ∷ b) c d h =
    ap (λ t. bit_xor x y ∷ t) (xor_each-append a b c d (omega (arith, h)))

store_before-bit_xor :
    (n v w : ℕ) (after1 after2 : Bytes)
    → store_before n (bit_xor v w) (xor_each after1 after2)
      ≡ xor_each (store_before n v after1) (store_before n w after2)
unfolding store_before xor_each
store_before-bit_xor zero v w after1 after2 = refl
store_before-bit_xor (suc n) v w after1 after2 =
    rw (above_byte-bit_xor v w, byte-bit_xor v w)
      (store_before-bit_xor n (v / 256) (w / 256) (v % 256 ∷ after1) (w % 256 ∷ after2))

pub store64be-bit_xor : (v w : ℕ) → store64be (bit_xor v w) ≡ xor_each (store64be v) (store64be w)
unfolding store64be xor_each
store64be-bit_xor v w = store_before-bit_xor 8 v w [] []

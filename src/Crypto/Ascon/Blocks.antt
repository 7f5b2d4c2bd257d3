-- ===== src/Crypto/Ascon/Blocks.antt =====
-- crypto/ascon/Ascon128a.cc: a full block and the last block, encrypted and decrypted.
use Prim.Native.Nat.{bit_xor}
use mathlib.Core.List.{append_assoc}
use uav_omnet.Base.{
  ℕ, zero, suc, ◌+◌, ◌/◌, ◌%◌, ◌≤◌, ◌≡◌, refl, ap, sym, ◌∙◌, [], ◌∷◌, ◌++◌, Bytes, length, take,
  drop, replicate, length-append, length-take, length-drop, length-replicate, take-append-drop,
  arith,
}
use uav_omnet.Crypto.Ascon.{AsconState, load64be, store64be, store_before, add_block, load_from}
use uav_omnet.Crypto.Ascon.Cipher.{rate_of, replace_rate, xor_each, rebuilt}
use uav_omnet.Crypto.Ascon.Words.{
  AllBytes, load64be-lt, xor_twice_word, byte_twice, byte-zero, load64be-store64be,
  store64be-load64be, store64be-bit_xor, xor_each-append, length-store64be,
}
use uav_omnet.Crypto.Ascon.Range.{IsState, add_block-IsState}

pub take-AllBytes : (n : ℕ) (b : Bytes) → AllBytes b → AllBytes (take n b)
unfolding take
take-AllBytes zero b h = tt
take-AllBytes (suc n) [] h = tt
take-AllBytes (suc n) (x ∷ b) h = (h.0, take-AllBytes n b h.1)

pub drop-AllBytes : (n : ℕ) (b : Bytes) → AllBytes b → AllBytes (drop n b)
unfolding drop
drop-AllBytes zero b h = h
drop-AllBytes (suc n) [] h = tt
drop-AllBytes (suc n) (x ∷ b) h = drop-AllBytes n b h.1

take-take : (n : ℕ) (b : Bytes) → take n (take n b) ≡ take n b
unfolding take
take-take zero b = refl
take-take (suc n) [] = refl
take-take (suc n) (x ∷ b) = ap (λ t. x ∷ t) (take-take n b)

-- The first eight bytes that are loaded and stored again.
store64be-first : (p : Bytes) → AllBytes p → 8 ≤ length p → store64be (load64be p) ≡ take 8 p
unfolding load64be
store64be-first p all size =
    ap (λ t. store64be (load_from 0 t)) (sym (take-take 8 p))
    ∙ store64be-load64be (take 8 p) (take-AllBytes 8 p all) (length-take 8 p size)

pub length-rate_of : (s : AsconState) → length (rate_of s) ≡ 16
unfolding rate_of
length-rate_of s = omega (
  arith,
  length-append (store64be s.x0) (store64be s.x1),
  length-store64be s.x0,
  length-store64be s.x1,
)

drop-store64be : (v : ℕ) (after : Bytes) → drop 8 (store64be v ++ after) ≡ after
unfolding drop store64be store_before
drop-store64be v after = refl

-- The rate of a state, put back.
pub replace_rate-rate_of :
    (s t : AsconState) (after : Bytes)
    → IsState t
    → s.x2 ≡ t.x2
    → s.x3 ≡ t.x3
    → s.x4 ≡ t.x4
    → replace_rate s (rate_of t ++ after) ≡ t
unfolding replace_rate rate_of
replace_rate-rate_of s t after v e2 e3 e4 =
    rw
      (
        append_assoc (store64be t.x0) (store64be t.x1) after,
        load64be-store64be t.x0 (store64be t.x1 ++ after) v.x0,
        drop-store64be t.x0 (store64be t.x1 ++ after),
        load64be-store64be t.x1 after v.x1,
        e2,
        e3,
        e4,
      )
      refl

pub replace_rate-add_block :
    (s : AsconState) (p after : Bytes)
    → IsState s
    → replace_rate s (rate_of (add_block s p) ++ after) ≡ add_block s p
unfolding add_block
replace_rate-add_block s p after v =
    replace_rate-rate_of s (add_block s p) after (add_block-IsState s p v) refl refl refl

pub drop-rate_of : (s : AsconState) (after : Bytes) → drop 16 (rate_of s ++ after) ≡ after
unfolding rate_of drop store64be store_before
drop-rate_of s after = refl

-- The plaintext of a full block comes back.
pub full_block :
    (s : AsconState) (p : Bytes)
    → IsState s
    → AllBytes p
    → length p ≡ 16
    → store64be (bit_xor s.x0 (add_block s p).x0) ++ store64be (bit_xor s.x1 (add_block s p).x1) ≡ p
unfolding add_block
full_block s p v all size =
    rw
      (
        xor_twice_word s.x0 (load64be p) v.x0 (load64be-lt p),
        xor_twice_word s.x1 (load64be (drop 8 p)) v.x1 (load64be-lt (drop 8 p)),
        store64be-first p all (omega (arith, size)),
        store64be-load64be (drop 8 p) (drop-AllBytes 8 p all)
            (omega (arith, length-drop 8 p, size)),
      )
      (take-append-drop 8 p)

-- The rate after a block is added, byte by byte.
pub rate_of-add_block :
    (s : AsconState) (p : Bytes)
    → AllBytes p
    → length p ≡ 16
    → rate_of (add_block s p) ≡ xor_each (rate_of s) p
unfolding rate_of add_block
rate_of-add_block s p all size =
    rw
      (
        store64be-bit_xor s.x0 (load64be p),
        store64be-bit_xor s.x1 (load64be (drop 8 p)),
        store64be-first p all (omega (arith, size)),
        store64be-load64be (drop 8 p) (drop-AllBytes 8 p all)
            (omega (arith, length-drop 8 p, size)),
      )
      (sym (
          xor_each-append (store64be s.x0) (take 8 p) (store64be s.x1) (drop 8 p)
            (length-store64be s.x0 ∙ sym (length-take 8 p (omega (arith, size)))))
        ∙ ap (xor_each (store64be s.x0 ++ store64be s.x1)) (take-append-drop 8 p))

store_before-AllBytes :
    (n v : ℕ) (after : Bytes) → AllBytes after → AllBytes (store_before n v after)
unfolding store_before
store_before-AllBytes zero v after h = h
store_before-AllBytes (suc n) v after h =
    store_before-AllBytes n (v / 256) (v % 256 ∷ after) (omega arith, h)

append-AllBytes : (a b : Bytes) → AllBytes a → AllBytes b → AllBytes (a ++ b)
append-AllBytes [] b h k = k
append-AllBytes (x ∷ a) b h k = (h.0, append-AllBytes a b h.1 k)

pub rate_of-AllBytes : (s : AsconState) → AllBytes (rate_of s)
unfolding rate_of store64be
rate_of-AllBytes s =
    append-AllBytes (store64be s.x0) (store64be s.x1) (store_before-AllBytes 8 s.x0 [] tt)
      (store_before-AllBytes 8 s.x1 [] tt)

-- The last block, for a rate of any length and as many zeros as fill it up.
abbrev pub pad_with : ℕ → Bytes → Bytes
pad_with z rest = rest ++ 0x80 ∷ replicate z 0

replicate-AllBytes : (n : ℕ) → AllBytes (replicate n 0)
unfolding replicate
replicate-AllBytes zero = tt
replicate-AllBytes (suc n) = (omega arith, replicate-AllBytes n)

pub pad_with-AllBytes : (z : ℕ) (rest : Bytes) → AllBytes rest → AllBytes (pad_with z rest)
pad_with-AllBytes z rest all =
    append-AllBytes rest (0x80 ∷ replicate z 0) all (omega arith, replicate-AllBytes z)

pub length-pad_with : (z : ℕ) (rest : Bytes) → length (pad_with z rest) ≡ length rest + 1 + z
length-pad_with z rest =
    omega (arith, length-append rest (0x80 ∷ replicate z 0), length-replicate {A = ℕ} z 0)

xor_each-replicate :
    (rate : Bytes) → AllBytes rate → xor_each rate (replicate (length rate) 0) ≡ rate
unfolding xor_each replicate
xor_each-replicate [] all = refl
xor_each-replicate (x ∷ rate) all = rw (byte-zero x all.0, xor_each-replicate rate all.1) refl

-- The ciphertext of the last bytes.
abbrev pub last_of : ℕ → Bytes → Bytes → Bytes
last_of z rate rest = take (length rest) (xor_each rate (pad_with z rest))

-- Decryption finds the last bytes of the plaintext, and the rate that encryption had.
pub last_found :
    (z : ℕ) (rate rest : Bytes)
    → AllBytes rate
    → AllBytes rest
    → length rest + 1 + z ≡ length rate
    → (xor_each rate (last_of z rate rest) ≡ rest)
      × (rebuilt rate (last_of z rate rest) ≡ xor_each rate (pad_with z rest))
      × (length (last_of z rate rest) ≡ length rest)
unfolding xor_each take rebuilt drop
last_found z [] rest ra pa h = absurd (omega (arith, h))
last_found z (x ∷ rate) [] ra pa h =
    let zeros : z ≡ length rate = omega (arith, h) in
    (refl, rw (zeros, xor_each-replicate rate ra.1) refl, refl)
last_found z (x ∷ rate) (y ∷ rest) ra pa h =
    let (back, again, size) = last_found z rate rest ra.1 pa.1 (omega (arith, h)) in
    (rw (byte_twice x y ra.0 pa.0, back) refl, ap (λ t. bit_xor x y ∷ t) again, omega (arith, size))

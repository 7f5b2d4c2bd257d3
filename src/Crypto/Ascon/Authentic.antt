-- ===== src/Crypto/Ascon/Authentic.antt =====
-- crypto/ascon/Ascon128a.cc: what `ascon128aDecrypt` accepts.
use Prim.Native.Nat.{bit_xor}
use uav_omnet.Base.{
  ℕ, zero, suc, ◌+◌, ◌-◌, ◌*◌, ◌/◌, ◌≤◌, ◌≡◌, refl, ap, sym, true, some, [], ◌∷◌, ◌++◌, Bytes,
  bytes_eq, bytes_eq_iff, length, take, drop, length-append, length-take, length-drop, arith,
}
use uav_omnet.Crypto.Ascon.{AsconState, store64be, permute}
use uav_omnet.Crypto.Ascon.Cipher.{
  rate_of, replace_rate, xor_each, decrypt_blocks, opened, ascon128a_decrypt,
}
use uav_omnet.Crypto.Ascon.Words.{length-store64be}
use uav_omnet.Crypto.Ascon.Blocks.{length-rate_of}
use uav_omnet.Crypto.Ascon.RoundTrip.{start}

length-xor_each : (a b : Bytes) → length b ≤ length a → length (xor_each a b) ≡ length b
unfolding xor_each
length-xor_each [] [] h = refl
length-xor_each [] (y ∷ b) h = absurd (omega (arith, h))
length-xor_each (x ∷ a) [] h = refl
length-xor_each (x ∷ a) (y ∷ b) h = omega (arith, length-xor_each a b (omega (arith, h)))

length-decrypt_blocks :
    (n : ℕ) (s : AsconState) (ct : Bytes)
    → 16 * n ≤ length ct
    → (length (decrypt_blocks n s ct).out ≡ 16 * n)
      × (length (decrypt_blocks n s ct).remaining ≡ length ct - 16 * n)
unfolding decrypt_blocks
length-decrypt_blocks zero s ct h = (refl, omega arith)
length-decrypt_blocks (suc n) s ct h =
    let s' = replace_rate s ct in
    let a = store64be (bit_xor s.x0 s'.x0) in
    let b = store64be (bit_xor s.x1 s'.x1) in
    let (out, remaining) =
      length-decrypt_blocks n (permute s' 8) (drop 16 ct) (omega (arith, h, length-drop 16 ct)) in
    let rest = (decrypt_blocks n (permute s' 8) (drop 16 ct)).out in
    let block = length-append a b in
    (
      omega (
        arith,
        out,
        length-append (a ++ b) rest,
        block,
        length-store64be (bit_xor s.x0 s'.x0),
        length-store64be (bit_xor s.x1 s'.x1),
      ),
      omega (arith, remaining, length-drop 16 ct),
    )

length-opened : (key nonce ad body : Bytes) → length (opened key nonce ad body).0 ≡ length body
unfolding opened
length-opened key nonce ad body =
    let n = length body / 16 in
    let s = start key nonce ad in
    let d = decrypt_blocks n s body in
    let (out, remaining) = length-decrypt_blocks n s body (omega arith) in
    omega (
      arith,
      out,
      remaining,
      length-append d.out (xor_each (rate_of d.state) d.remaining),
      length-rate_of d.state,
      length-xor_each (rate_of d.state) d.remaining
          (omega (arith, remaining, length-rate_of d.state)),
    )

-- A ciphertext is accepted only with a key and a nonce of 16 bytes, and only if its last 16 bytes
-- are the tag that belongs to the rest; the plaintext is then 16 bytes shorter.
pub ascon128a_decrypt_authentic :
    (key nonce ad ct pt : Bytes)
    → ascon128a_decrypt key nonce ad ct ≡ some pt
    → (length key ≡ 16)
      × (length nonce ≡ 16)
      × (length ct ≡ length pt + 16)
      × ((tag : Bytes) × (opened key nonce ad (take (length ct - 16) ct) ≡ (pt, tag))
          × (drop (length ct - 16) ct ≡ tag))
unfolding ascon128a_decrypt
ascon128a_decrypt_authentic key nonce ad ct pt h =
    let body = take (length ct - 16) ct in
    let both = opened key nonce ad body in
    let plain : both.0 ≡ pt = ground arith in
    let same : bytes_eq both.1 (drop (length ct - 16) ct) ≡ true = ground arith in
    let long : 16 ≤ length ct = ground arith in
    (
      ground arith,
      ground arith,
      omega (
        arith,
        long,
        ap length plain,
        length-opened key nonce ad body,
        length-take (length ct - 16) ct (omega arith),
      ),
      (
        both.1,
        ap (λ p. (p, both.1)) plain,
        sym ((bytes_eq_iff both.1 (drop (length ct - 16) ct)).0 same),
      ),
    )

-- ===== src/Crypto/Ascon/RoundTrip.antt =====
-- crypto/ascon/Ascon128a.cc: decryption after encryption.
use mathlib.Core.List.{append_assoc, append-nil}
use uav_omnet.Base.{
  ℕ, zero, suc, ◌+◌, ◌-◌, ◌*◌, ◌/◌, ◌≤◌, ◌≡◌, refl, ap, sym, ◌∙◌, some, [], ◌++◌, Bytes,
  bytes_eq_refl, length, take, drop, length-append, length-take, length-drop, take-append-drop,
  drop-append, take-append, arith,
}
use uav_omnet.Crypto.Ascon.{
  AsconState, store64be, permute, add_block, padded, initialise, absorb_associated_data, finalise,
  store_before,
}
use uav_omnet.Crypto.Ascon.Cipher.{
  Blocks, rate_of, replace_rate, xor_each, rebuilt, decrypt_blocks, encrypt_blocks,
  ascon128a_encrypt, opened, ascon128a_decrypt,
}
use uav_omnet.Crypto.Ascon.Words.{AllBytes}
use uav_omnet.Crypto.Ascon.Range.{
  IsState, add_block-IsState, permute-IsState, initialise-IsState, absorb_associated_data-IsState,
}
use uav_omnet.Crypto.Ascon.Blocks.{
  take-AllBytes, drop-AllBytes, length-rate_of, rate_of-AllBytes, replace_rate-add_block,
  drop-rate_of, full_block, rate_of-add_block, pad_with, pad_with-AllBytes, length-pad_with,
  last_of, last_found,
}

pub encrypt_blocks-IsState :
    (n : ℕ) (s : AsconState) (pt : Bytes) → IsState s → IsState (encrypt_blocks n s pt).state
unfolding encrypt_blocks
encrypt_blocks-IsState zero s pt v = v
encrypt_blocks-IsState (suc n) s pt v =
    encrypt_blocks-IsState n (permute (add_block s (take 16 pt)) 8) (drop 16 pt)
      (permute-IsState (add_block s (take 16 pt)) 8 (add_block-IsState s (take 16 pt) v))

length-encrypt_blocks :
    (n : ℕ) (s : AsconState) (pt : Bytes) → length (encrypt_blocks n s pt).out ≡ 16 * n
unfolding encrypt_blocks
length-encrypt_blocks zero s pt = refl
length-encrypt_blocks (suc n) s pt =
    let s' = add_block s (take 16 pt) in
    omega (
      arith,
      length-append (rate_of s') (encrypt_blocks n (permute s' 8) (drop 16 pt)).out,
      length-rate_of s',
      length-encrypt_blocks n (permute s' 8) (drop 16 pt),
    )

remaining-encrypt_blocks :
    (n : ℕ) (s : AsconState) (pt : Bytes)
    → AllBytes pt
    → 16 * n ≤ length pt
    → AllBytes (encrypt_blocks n s pt).remaining
      × (length (encrypt_blocks n s pt).remaining ≡ length pt - 16 * n)
unfolding encrypt_blocks
remaining-encrypt_blocks zero s pt all h = (all, omega arith)
remaining-encrypt_blocks (suc n) s pt all h =
    let (bytes, size) =
      remaining-encrypt_blocks n (permute (add_block s (take 16 pt)) 8) (drop 16 pt)
        (drop-AllBytes 16 pt all) (omega (arith, h, length-drop 16 pt)) in
    (bytes, omega (arith, size, length-drop 16 pt))

decrypt_blocks_none :
    (s : AsconState) (ct : Bytes)
    → decrypt_blocks 0 s ct ≡ record { out = []; state = s; remaining = ct }
unfolding decrypt_blocks
decrypt_blocks_none s ct = refl

decrypt_blocks_step :
    (n : ℕ) (s : AsconState) (p after : Bytes)
    → IsState s
    → AllBytes p
    → length p ≡ 16
    → let rest = decrypt_blocks n (permute (add_block s p) 8) after in
      decrypt_blocks (suc n) s (rate_of (add_block s p) ++ after)
      ≡ record rest { out = p ++ rest.out }
unfolding decrypt_blocks
decrypt_blocks_step n s p after v all size =
    rw
      (
        replace_rate-add_block s p after v,
        drop-rate_of (add_block s p) after,
        full_block s p v all size,
      )
      refl

-- The loops over the full blocks come to one state, and give the plaintext back.
blocks_undone :
    (n : ℕ) (s : AsconState) (pt tail : Bytes)
    → IsState s
    → AllBytes pt
    → 16 * n ≤ length pt
    → let e = encrypt_blocks n s pt in
      let d = decrypt_blocks n s (e.out ++ tail) in
      (d.state ≡ e.state) × (d.remaining ≡ tail) × (d.out ++ e.remaining ≡ pt)
unfolding encrypt_blocks
blocks_undone zero s pt tail v all h = rw (decrypt_blocks_none s tail) (refl, refl, refl)
blocks_undone (suc n) s pt tail v all h =
    let p = take 16 pt in
    let size : length p ≡ 16 = length-take 16 pt (omega (arith, h)) in
    let s' = add_block s p in
    let next = encrypt_blocks n (permute s' 8) (drop 16 pt) in
    let (state, remaining, whole) =
      blocks_undone n (permute s' 8) (drop 16 pt) tail
        (permute-IsState s' 8 (add_block-IsState s p v)) (drop-AllBytes 16 pt all)
        (omega (arith, h, length-drop 16 pt)) in
    rw
      (
        append_assoc (rate_of s') next.out tail,
        decrypt_blocks_step n s p (next.out ++ tail) v (take-AllBytes 16 pt all) size,
      )
      (
        state,
        remaining,
        append_assoc p (decrypt_blocks n (permute s' 8) (next.out ++ tail)).out next.remaining
            ∙ ap (λ t. p ++ t) whole
            ∙ take-append-drop 16 pt,
      )

length-finalise : (s : AsconState) (key : Bytes) → length (finalise s key) ≡ 16
unfolding finalise store64be store_before
length-finalise s key = refl

module _ (key nonce ad : Bytes) where
  abbrev pub start : AsconState
  start = absorb_associated_data (initialise key nonce) ad

  start-IsState : IsState start
  start-IsState =
      absorb_associated_data-IsState (initialise key nonce) ad (initialise-IsState key nonce)

  abbrev full_of : Bytes → Blocks
  full_of pt = encrypt_blocks (length pt / 16) start pt

  abbrev last_state : Bytes → AsconState
  last_state pt = add_block (full_of pt).state (padded (full_of pt).remaining)

  abbrev last_bytes : Bytes → Bytes
  last_bytes pt = take (length (full_of pt).remaining) (rate_of (last_state pt))

  abbrev body_of : Bytes → Bytes
  body_of pt = (full_of pt).out ++ last_bytes pt

  -- The ciphertext without its tag opens to the plaintext and the tag.
  opened-body_of :
      (pt : Bytes)
      → AllBytes pt
      → opened key nonce ad (body_of pt) ≡ (pt, finalise (last_state pt) key)
  unfolding opened padded
  opened-body_of pt all =
      let n = length pt / 16 in
      let full = full_of pt in
      let rest = full.remaining in
      let rate = rate_of full.state in
      let (bytes, size) = remaining-encrypt_blocks n start pt all (omega arith) in
      let z = 15 - length rest in
      let full_safe = encrypt_blocks-IsState n start pt start-IsState in
      let fills : length (pad_with z rest) ≡ 16 = omega (arith, size, length-pad_with z rest) in
      let whole_rate : rate_of (last_state pt) ≡ xor_each rate (pad_with z rest) =
        rate_of-add_block full.state (padded rest) (pad_with-AllBytes z rest bytes) fills in
      let (found, again, kept) =
        last_found z rate rest (rate_of-AllBytes full.state) bytes
          (omega (arith, size, length-rate_of full.state)) in
      let last : last_bytes pt ≡ last_of z rate rest = ap (take (length rest)) whole_rate in
      let (state, remaining, whole) =
        blocks_undone n start pt (last_bytes pt) start-IsState all (omega arith) in
      let blocks : length (body_of pt) / 16 ≡ n = omega (
        arith,
        size,
        kept,
        ap length last,
        length-append full.out (last_bytes pt),
        length-encrypt_blocks n start pt,
      ) in
      let rebuilt_last : replace_rate full.state (rebuilt rate (last_bytes pt)) ≡ last_state pt =
        ap (λ b. replace_rate full.state (rebuilt rate b)) last
        ∙ ap (replace_rate full.state)
            (again ∙ sym whole_rate ∙ sym (append-nil (rate_of (last_state pt))))
        ∙ replace_rate-add_block full.state (padded rest) [] full_safe in
      rw (blocks, state, remaining, rebuilt_last)
        (ap (λ t. (t, finalise (last_state pt) key))
          (ap (λ b. (decrypt_blocks n start (body_of pt)).out ++ b)
              (ap (xor_each rate) last ∙ found)
            ∙ whole))

module _ (key nonce ad : Bytes) where
  -- With a key and a nonce of 16 bytes every plaintext is encrypted, to a ciphertext that is 16 bytes
  -- longer.
  pub length-ascon128a_encrypt :
      (pt : Bytes)
      → AllBytes pt
      → length key ≡ 16
      → length nonce ≡ 16
      → (ct : Bytes) × (ascon128a_encrypt key nonce ad pt ≡ some ct) × (length ct ≡ length pt + 16)
  unfolding ascon128a_encrypt
  length-ascon128a_encrypt pt all k n =
      let last = last_state key nonce ad pt in
      let out = (full_of key nonce ad pt).out in
      let rest = (full_of key nonce ad pt).remaining in
      (
        body_of key nonce ad pt ++ finalise last key,
        ground arith,
        omega (
          arith,
          length-append (body_of key nonce ad pt) (finalise last key),
          length-finalise last key,
          length-append out (last_bytes key nonce ad pt),
          length-encrypt_blocks (length pt / 16) (start key nonce ad) pt,
          remaining-encrypt_blocks (length pt / 16) (start key nonce ad) pt all (omega arith),
          length-take (length rest) (rate_of last) (
              omega (
                arith,
                length-rate_of last,
                remaining-encrypt_blocks (length pt / 16) (start key nonce ad) pt all (omega arith),
              )),
        ),
      )

  -- Decryption under the same key, nonce and associated data gives the plaintext back.
  pub ascon128a_decrypt-ascon128a_encrypt :
      (pt ct : Bytes)
      → AllBytes pt
      → ascon128a_encrypt key nonce ad pt ≡ some ct
      → ascon128a_decrypt key nonce ad ct ≡ some pt
  unfolding ascon128a_encrypt ascon128a_decrypt
  ascon128a_decrypt-ascon128a_encrypt pt ct all h =
      let body = body_of key nonce ad pt in
      let tag = finalise (last_state key nonce ad pt) key in
      let whole : ct ≡ body ++ tag = ground arith in
      let long : length ct ≡ length body + 16 = omega (
        arith,
        ap length whole,
        length-append body tag,
        length-finalise (last_state key nonce ad pt) key,
      ) in
      let size : length ct - 16 ≡ length body = omega (arith, long) in
      let front : take (length ct - 16) ct ≡ body = rw (size, whole) (take-append body tag) in
      let back : drop (length ct - 16) ct ≡ tag = rw (size, whole) (drop-append body tag) in
      let found : opened key nonce ad (take (length ct - 16) ct) ≡ (pt, tag) =
        ap (opened key nonce ad) front ∙ opened-body_of key nonce ad pt all in
      ground (arith, long, found, back, bytes_eq_refl tag)

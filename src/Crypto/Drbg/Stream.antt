-- ===== src/Crypto/Drbg/Stream.antt =====
-- Drbg.cc: `bytes` ends and returns as many bytes as were asked for.
use Prim.Native.Nat.{min}
use uav_omnet.Base.{
  ℕ, zero, suc, ◌+◌, ◌-◌, ◌%◌, ◌^◌, ◌≤◌, ◌<◌, ◌≡◌, some, [], ◌++◌, Bytes, ltb, length, arith,
  length-append, length-take, length-drop, Bool-cases, inl, inr,
}
use uav_omnet.Crypto.Drbg.{Drbg, refill, counter_bytes, refill_if_read, take_some, fill, bytes}

module _ (sha3_256 : Bytes → Bytes) (positive : (b : Bytes) → 0 < length (sha3_256 b)) where
  refill_if_read-unread :
      (d : Drbg) → (refill_if_read sha3_256 d).offset < length (refill_if_read sha3_256 d).buffer
  unfolding refill_if_read refill
  refill_if_read-unread d = ground (arith, positive (d.key ++ counter_bytes 8 d.counter))

  length-take_some :
      (missing : ℕ) (d : Drbg)
      → d.offset < length d.buffer
      → length (take_some sha3_256 missing d).0 ≡ min missing (length d.buffer - d.offset)
  unfolding take_some
  length-take_some missing d h = length-take _ _ (omega (arith, length-drop d.offset d.buffer))

  fill-total :
      (fuel n : ℕ) (out : Bytes) (d : Drbg)
      → length out ≤ n
      → n ≤ length out + fuel
      → (out' : Bytes) × (d' : Drbg) × (fill sha3_256 fuel n out d ≡ some (out', d'))
        × (length out' ≡ n)
  unfolding fill
  fill-total zero n out d le enough = (out, d, ground arith, omega arith)
  fill-total (suc fuel) n out d le enough = elim (Bool-cases (ltb (length out) n)) [
    | inl more ↦
        let round = take_some sha3_256 (n - length out) (refill_if_read sha3_256 d) in
        let unread = refill_if_read-unread d in
        let size = length-take_some (n - length out) (refill_if_read sha3_256 d) unread in
        let (out', d', runs, exact) =
          fill-total fuel n (out ++ round.0) round.1
            (ground (arith, size, length-append out round.0))
            (ground (arith, size, length-append out round.0)) in
        (out', d', rw more runs, exact)
    | inr done ↦ (out, d, rw done, ground arith)
  ]

  -- A draw of `n` bytes ends and gives `n` bytes, when the hash gives at least one.
  pub bytes-total :
      (n : ℕ) (d : Drbg)
      → (out : Bytes) × (d' : Drbg) × (bytes sha3_256 n d ≡ some (out, d')) × (length out ≡ n)
  unfolding bytes
  bytes-total n d =
      let (out, d', runs, exact) = fill-total n n [] d (omega arith) (omega arith) in
      (out, record d' { drawn = (d'.drawn + n) % 2 ^ 64 }, rw (runs, bytes), exact)

  pub length-bytes :
      (n : ℕ) (d : Drbg) (out : Bytes) (d' : Drbg)
      → bytes sha3_256 n d ≡ some (out, d')
      → length out ≡ n
  length-bytes n d out d' h = let (out', d'', runs, exact) = bytes-total n d in ground arith

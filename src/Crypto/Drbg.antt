-- ===== src/Crypto/Drbg.antt =====
-- crypto/Drbg.h and crypto/Drbg.cc: SHA3-256 in counter mode. The hash is OpenSSL's and a parameter;
-- the draws of doubles are not modelled.
pub mod Stream
pub mod Uniform
use uav_omnet.Base.{
  ℕ, zero, suc, ◌+◌, ◌-◌, ◌*◌, ◌/◌, ◌%◌, ◌^◌, Option, none, some, [], ◌∷◌, ◌++◌, Bytes, Bool, ltb,
  leb, if◌then◌else◌, length, take, drop,
}
use Prim.Native.Nat.{min}

pub record Drbg : Type 0 where
  pub key : Bytes
  pub buffer : Bytes
  pub offset : ℕ
  pub counter : ℕ
  pub drawn : ℕ

-- The eight bytes of a 64-bit counter, the highest first.
unfoldable pub counter_bytes : ℕ → ℕ → Bytes
counter_bytes zero counter = []
counter_bytes (suc n) counter = counter / 2 ^ (8 * n) % 256 ∷ counter_bytes n counter

module _ (sha3_256 : Bytes → Bytes) where
  unfoldable pub reseed : Bytes → Drbg
  reseed seed = record { key = sha3_256 seed; buffer = []; offset = 0; counter = 0; drawn = 0 }

  unfoldable pub refill : Drbg → Drbg
  refill d = record d {
    buffer = sha3_256 (d.key ++ counter_bytes 8 d.counter);
    offset = 0;
    counter = (d.counter + 1) % 2 ^ 64;
  }

  -- The generator with unread bytes in its buffer.
  unfoldable pub refill_if_read : Drbg → Drbg
  refill_if_read d = if leb (length d.buffer) d.offset then refill d else d

  -- One round of the loop: what it appends, and the generator after it.
  unfoldable pub take_some : ℕ → Drbg → Bytes × Drbg
  take_some missing d =
      let count = min missing (length d.buffer - d.offset) in
      (take count (drop d.offset d.buffer), record d { offset = d.offset + count })

  -- The loop of `bytes`, with fuel; `none` means that the fuel ran out.
  unfoldable pub fill : ℕ → ℕ → Bytes → Drbg → Option (Bytes × Drbg)
  fill zero n out d = if ltb (length out) n then none else some (out, d)
  fill (suc fuel) n out d =
      let round = take_some (n - length out) (refill_if_read d) in
      let rest = fill fuel n (out ++ round.0) round.1 in
      if ltb (length out) n then rest else some (out, d)

  -- Each round appends a byte at least, so `n` rounds are enough.
  unfoldable pub bytes : ℕ → Drbg → Option (Bytes × Drbg)
  bytes n d = elim (fill n n [] d) [
    | none ↦ none
    | some (out, d') ↦ some (out, record d' { drawn = (d'.drawn + n) % 2 ^ 64 })
  ]

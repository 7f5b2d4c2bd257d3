-- ===== src/Baseline/Safety/Faults.antt =====
-- BaselineSigAuth.cc, `handleM1` of the ground station: which messages end in an exception.
use uav_omnet.Base.{
  ℕ, ◌<◌, ◌≡◌, ◌≢◌, ◌↔◌, Bool, false, true, Option, none, some, Bytes, length, ℤ, arith,
}
use uav_omnet.Core.{FieldId}
use uav_omnet.Wire.{MessageType, Message, has, decode_id, decode_timestamp}
use uav_omnet.Protocol.Replay.{offer}
use uav_omnet.Baseline.Safety.Station.{signed_b1, named_by}
use uav_omnet.Crypto.X25519.{IsDiffieHellman, x25519_generate-total}
use uav_omnet.Crypto.Drbg.Stream.{bytes-total}
use uav_omnet.Protocol.Flow.{fault}
use uav_omnet.Protocol.Safety.Station.{field}
use uav_omnet.Baseline.State.{BaselineEnv, BaselineGroundStation}
use uav_omnet.Baseline.GroundStation.{answer_m1, handle_m1}

abbrev is_some {ℓ} : {A : Type ℓ} → Option A → Bool
is_some none = false
is_some (some a) = true

abbrev or_zero : Option ℕ → ℕ
or_zero none = 0
or_zero (some n) = n

-- A B1 with all the fields that the handler asks for.
abbrev pub IsWhole : Message → Type 0
IsWhole m1 =
    (m1.type ≡ MessageType.b1_m1_auth_request)
    × (has m1 FieldId.sender_id ≡ true)
    × (has m1 FieldId.nonce_1 ≡ true)
    × (has m1 FieldId.timestamp ≡ true)
    × (has m1 FieldId.epk_a ≡ true)
    × (has m1 FieldId.signature ≡ true)

module _ {Key : Type 0} (env : BaselineEnv Key)
    (positive : (b : Bytes) → 0 < length (env.sha3_256 b)) (key_exchange : IsDiffieHellman env.ossl)
    (reads_two : (b : Bytes) → length b ≡ 2 → (v : ℕ) × (env.core.read_u16be b 0 ≡ some v)) where
  open env use {core, ossl, sha3_256}

  -- Once the message is verified nothing throws any more.
  answer_m1-returns :
      (m1 : Message) (sender n1 epk_a input1 : Bytes) (id : ℤ) (t1 now_ms : ℕ)
      (gs : BaselineGroundStation Key)
      → answer_m1 env m1 sender id n1 t1 epk_a input1 now_ms gs ≢ fault
  unfolding answer_m1
  answer_m1-returns m1 sender n1 epk_a input1 id t1 now_ms gs h =
      let (n2, rng1, draws, size) = bytes-total sha3_256 positive 16 gs.rng in
      let (seed, rng2, draws2, size2) = bytes-total sha3_256 positive 32 rng1 in
      let (key, public, length_key, generates) =
        x25519_generate-total ossl key_exchange seed size2 in
      ground (arith, draws, draws2, generates, h)

  decodes_returns :
      (m1 : Message) (now_ms : ℕ) (gs : BaselineGroundStation Key)
      → is_some (decode_id core (field m1 FieldId.sender_id)) ≡ true
      → handle_m1 env m1 now_ms gs ≢ fault
  unfolding handle_m1
  decodes_returns m1 now_ms gs decodes h =
      let returns =
        answer_m1-returns m1 (field m1 FieldId.sender_id) (field m1 FieldId.nonce_1)
          (field m1 FieldId.epk_a) (signed_b1 env m1) (named_by env m1)
          (or_zero (decode_timestamp core (field m1 FieldId.timestamp))) now_ms
          (record gs { replay = (offer gs.replay (field m1 FieldId.nonce_1)).0 }) in
      ground (arith, decodes, returns, h)

  -- `handleM1` ends in an uncaught exception exactly on a B1 with all its fields whose sender id is not two
  -- bytes long, whatever its signature, its nonce and its time; everything else it answers or rejects.
  -- This is for a hash that gives a byte at least, a key exchange that takes every seed of 32 bytes, and a
  -- byte library that reads two bytes as a number.
  pub handle_m1_faults :
      (m1 : Message) (now_ms : ℕ) (gs : BaselineGroundStation Key)
      → (handle_m1 env m1 now_ms gs ≡ fault)
        ↔ (IsWhole m1 × (length (field m1 FieldId.sender_id) ≢ 2))
  unfolding handle_m1 decode_id
  handle_m1_faults m1 now_ms gs = (
    λ h. (
      grind (arith, answer_m1-returns),
      λ two.
          let (v, reads) = reads_two (field m1 FieldId.sender_id) two in
          decodes_returns m1 now_ms gs (ground (arith, two, reads)) h,
    ),
    λ (whole, wrong). ground (arith, whole, wrong),
  )

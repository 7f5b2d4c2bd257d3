-- ===== src/Tests/Baseline.antt =====
-- The handshake of BaselineSigAuth.cc between one drone and one ground station, computed.
use uav_omnet.Base.{
  ℕ, ◌+◌, ◌*◌, ◌≡◌, ◌≢◌, ◌↔◌, length, refl, true, false, Option, none, some, [], ◌∷◌, ◌++◌, Bytes,
  bytes_eq, bytes_eq_refl, pos, ℤ, arith, take, drop, replicate, inl, inr, lookup, insert, to_u16,
  eq_ℤ, ltb_ℤ,
}
use uav_omnet.Core.{FieldId, of_list}
use uav_omnet.Wire.{
  MessageType, AbortReason, Message, blank, mac_input, mac_type_tag, encode_id, decode_id,
  encode_timestamp, decode_timestamp,
}
use uav_omnet.Crypto.Signature.{SignatureSuite, IsCorrect}
use uav_omnet.Crypto.X25519
use uav_omnet.Crypto.Label
use uav_omnet.Crypto.Drbg
use uav_omnet.Protocol.Flow.{done, stop, fault}
use uav_omnet.Protocol.Replay.{contains, evict, offer, timestamp_fresh, empty_cache}
use uav_omnet.Protocol.Safety.Station.{field}
use uav_omnet.Baseline.State.{
  BaselineEnv, BaselineGroundStation, BaselineUav, no_baseline_uav_session,
}
use uav_omnet.Baseline.GroundStation.{key_of, handle_m1, handle_m3}
use uav_omnet.Baseline.Uav.{start_phase2, handle_m2}
use uav_omnet.Protocol.Replay.Window.{IsCache}
use uav_omnet.Baseline.Safety.Station.{signed_b1, handle_m1_signed}
use uav_omnet.Baseline.Safety.Burnt.{here, b3_refused, handle_m3_burns}
use uav_omnet.Baseline.Safety.Faults.{IsWhole, handle_m1_faults}
use uav_omnet.Baseline.Safety.Drone.{signed_b2, handle_m2_signed}
use uav_omnet.Baseline.Safety.Reach.{
  IsSafeParties, at_start, then_step, starts, station_accepts, station_refuses, drone_accepts,
  Leads-IsSafeParties,
}
use uav_omnet.Baseline.Handshake.Agreement.{IsSound, IsProvisioned}
use uav_omnet.Tests.Toy.{
  core, core-IsBigEndian, suite, suite-IsFunctional, ossl, ossl-IsDiffieHellman, sha3_256,
  sha3_256-positive, sum, mac, pair_of, quad_of,
}
use uav_omnet.Tests.Encoding.{encode_field, encode_each, encode_fields}
use uav_omnet.Tests.Exchange.{message_of, state_after, forged}
use uav_omnet.Tests.World.{seeded, drawn, after_draw}

-- A pair and its public half are one number, and a signature is a sum.
abbrev number_of : Option ℕ → Bytes
number_of none = []
number_of (some k) = k ∷ []

abbrev only : Bytes → Option ℕ
only [] = none
only (k ∷ rest) = some k

abbrev added : Bytes → Bytes → Bytes
added message [] = []
added message (k ∷ rest) = (k + sum message) ∷ []

abbrev sig_suite : SignatureSuite ℕ
sig_suite = record {
  public_key_bytes = number_of;
  key_from_public_bytes = only;
  sign = λ pair message. added message (number_of pair);
  verify = λ key message signature. bytes_eq (added message (key ∷ [])) signature;
}

sig_suite-IsCorrect : IsCorrect sig_suite
sig_suite-IsCorrect = record {
  verify-sign = λ pair public message h. ground (arith, bytes_eq_refl (added message (pair ∷ [])));
}

abbrev pub env : BaselineEnv ℕ
env = record {
  core = core;
  sig_suite = sig_suite;
  sym_suite = suite;
  ossl = ossl;
  sha3_256 = sha3_256;
}

pub env-IsSound : IsSound env
env-IsSound = record {
  functional = suite-IsFunctional;
  correct = sig_suite-IsCorrect;
  key_exchange = ossl-IsDiffieHellman;
  big_endian = core-IsBigEndian;
  hash_positive = sha3_256-positive;
  key_positive = omega arith;
}

abbrev pub station : BaselineGroundStation ℕ
station = record {
  window_ms = 1000;
  keypair = some 77;
  uav_public_keys = (pos 4, some 44) ∷ [];
  sessions = [];
  replay = empty_cache 4096;
  rng = seeded 1;
}

abbrev pub drone : BaselineUav ℕ
drone = record {
  uav_id = pos 4;
  window_ms = 1000;
  keypair = some 44;
  gs_public_key = some 77;
  session = no_baseline_uav_session;
  replay = empty_cache 4096;
  rng = seeded 2;
}

pub ready : IsProvisioned env drone station 100 150 200
unfolding seeded Drbg.bytes Drbg.fill Drbg.refill_if_read Drbg.refill Drbg.take_some
    Drbg.counter_bytes Drbg.reseed sha3_256 sum take drop contains timestamp_fresh key_of lookup
    bytes_eq replicate mac_input encode_fields eq_ℤ
ready = record {
  uav_pair = 44;
  uav_public = 44;
  gs_pair = 77;
  gs_public = 77;
  owns_uav = refl;
  owns_gs = refl;
  uav_imported = refl;
  gs_imported = refl;
  enrolled = refl;
  provisioned = refl;
  fits = refl;
  signs_something = λ n1 epk_a. refl;
  n1 = drawn 16 (seeded 2);
  n1_rng = after_draw 16 (seeded 2);
  draws_n1 = refl;
  unseen_n1 = refl;
  n2 = drawn 16 (seeded 1);
  n2_rng = after_draw 16 (seeded 1);
  draws_n2 = refl;
  unseen_n2 = refl;
  t1_fits = omega arith;
  t2_fits = omega arith;
  b1_in_time = refl;
  b2_in_time = refl;
}

abbrev b1 : Message
b1 = message_of (start_phase2 env 100 drone)

abbrev drone_1 : BaselineUav ℕ
drone_1 = state_after drone (start_phase2 env 100 drone)

abbrev b2 : Message
b2 = message_of (handle_m1 env b1 150 station)

abbrev station_1 : BaselineGroundStation ℕ
station_1 = state_after station (handle_m1 env b1 150 station)

abbrev b3 : Message
b3 = message_of (handle_m2 env b2 200 drone_1)

abbrev drone_2 : BaselineUav ℕ
drone_2 = state_after drone_1 (handle_m2 env b2 200 drone_1)

-- A B3 that anyone could send in the drone's name.
abbrev false_b3 : Message
false_b3 = forged FieldId.mac_tag b3

abbrev station_burnt : BaselineGroundStation ℕ
station_burnt = state_after station_1 (handle_m3 env false_b3 240 station_1)

abbrev station_again : BaselineGroundStation ℕ
station_again = state_after station_1 (handle_m1 env b1 160 station_1)

-- A response whose signature is wrong.
abbrev false_b2 : Message
false_b2 = forged FieldId.signature b2

record Runs : Type 0 where
  accepts_b1 : handle_m1 env b1 150 station ≡ done (some b2) station_1
  refuses_b1 : handle_m1 env b1 160 station_1 ≡ stop AbortReason.replayed_nonce station_again
  starts : start_phase2 env 100 drone ≡ done (some b1) drone_1
  accepts_b2 : handle_m2 env b2 200 drone_1 ≡ done (some b3) drone_2
  refuses_b3 :
      handle_m3 env false_b3 240 station_1 ≡ stop AbortReason.mac_verify_failed station_burnt
  refuses_again :
      handle_m3 env false_b3 245 station_burnt ≡ stop AbortReason.dh_failed station_burnt
  typed_b3 : b3.type ≡ MessageType.b1_m3_uav_confirm
  tagged_b3 : b3.fields FieldId.mac_tag ≡ some (field b3 FieldId.mac_tag)
  provisioned : drone_1.gs_public_key ≡ some 77
  forged_b2 :
      sig_suite.verify 77 (signed_b2 env drone_1 false_b2) (field false_b2 FieldId.signature)
      ≡ false

runs : Runs
unfolding start_phase2 handle_m1 handle_m2 handle_m3 key_of seeded Drbg.bytes Drbg.fill
    Drbg.refill_if_read Drbg.refill Drbg.take_some Drbg.counter_bytes Drbg.reseed sha3_256 sum take
    drop contains timestamp_fresh bytes_eq replicate mac_input mac_type_tag encode_id decode_id
    encode_timestamp decode_timestamp X25519.x25519_generate X25519.x25519_derive X25519.erase mac
    pair_of quad_of encode_field encode_each encode_fields offer evict lookup insert to_u16 eq_ℤ
    ltb_ℤ
runs = record {
  accepts_b1 = refl;
  refuses_b1 = refl;
  starts = refl;
  accepts_b2 = refl;
  refuses_b3 = refl;
  refuses_again = refl;
  typed_b3 = refl;
  tagged_b3 = refl;
  provisioned = refl;
  forged_b2 = refl;
}

-- The genuine B3 comes after the false one and another false one.
handle_m3_burns_example :
    handle_m3 env b3 250 station_burnt ≡ stop AbortReason.dh_failed station_burnt
handle_m3_burns_example =
    handle_m3_burns env false_b3 b3 240 250 station_1 station_burnt station_burnt
      (field b3 FieldId.mac_tag) runs.refuses_b3
      (b3_refused false_b3 245 AbortReason.dh_failed here runs.refuses_again) runs.typed_b3
      runs.tagged_b3 refl

handle_m1_signed_example :
    (id : ℤ) × (t1 : ℕ) × (decode_id core (field b1 FieldId.sender_id) ≡ some id)
    × (decode_timestamp core (field b1 FieldId.timestamp) ≡ some t1)
    × (timestamp_fresh 150 t1 station.window_ms ≡ true)
    × ((offer station.replay (field b1 FieldId.nonce_1)).1 ≡ true)
    × ((key : ℕ) × (key_of id station ≡ some key)
        × (sig_suite.verify key (signed_b1 env b1) (field b1 FieldId.signature) ≡ true))
handle_m1_signed_example = handle_m1_signed env b1 150 station station_1 (some b2) runs.accepts_b1

-- A request with a sender id of one byte.
abbrev short_b1 : Message
short_b1 = record blank {
  type = MessageType.b1_m1_auth_request;
  fields = of_list (
      (FieldId.sender_id, 4 ∷ [])
      ∷ (FieldId.nonce_1, replicate 16 1)
      ∷ (FieldId.timestamp, 0 ∷ 0 ∷ 0 ∷ 100 ∷ [])
      ∷ (FieldId.epk_a, replicate 32 2)
      ∷ (FieldId.signature, [])
      ∷ []);
}

core-reads_two : (b : Bytes) → length b ≡ 2 → (v : ℕ) × (core.read_u16be b 0 ≡ some v)
unfolding pair_of drop
core-reads_two [] h = absurd (omega (arith, h))
core-reads_two (x ∷ []) h = absurd (omega (arith, h))
core-reads_two (x ∷ y ∷ []) h = (x * 256 + y, refl)
core-reads_two (x ∷ y ∷ z ∷ rest) h = absurd (omega (arith, h))

handle_m1_faults_example :
    (handle_m1 env short_b1 150 station ≡ fault)
    ↔ (IsWhole short_b1 × (length (field short_b1 FieldId.sender_id) ≢ 2))
handle_m1_faults_example =
    handle_m1_faults env sha3_256-positive ossl-IsDiffieHellman core-reads_two short_b1 150 station

handle_m2_signed_example :
    (key : ℕ) × (shared : Bytes) × (drone_1.gs_public_key ≡ some key)
    × (sig_suite.verify key (signed_b2 env drone_1 b2) (field b2 FieldId.signature) ≡ true)
    × (X25519.x25519_derive ossl drone_1.session.ephemeral.secret (field b2 FieldId.epk_b)
        ≡ some shared)
    × (drone_2.session.transcript ≡ drone_1.session.transcript ++ signed_b2 env drone_1 b2)
    × (drone_2.session.session_key
        ≡ suite.kdf shared drone_2.session.transcript Label.p2_sess [] suite.key_len)
    × (drone_2.session.ephemeral.secret ≡ [])
    × ((t1 : ℕ)
        → handle_m2 env b2 200 (record drone_1 { session = record drone_1.session { t1 = t1 } })
          ≡ done (some b3) (record drone_2 { session = record drone_2.session { t1 = t1 } }))
handle_m2_signed_example = handle_m2_signed env b2 200 drone_1 drone_2 (some b3) runs.accepts_b2

-- A drone that waits for B4 under a key of its own.
abbrev waiting : BaselineUav ℕ
waiting = record drone {
  session = record no_baseline_uav_session { transcript = 1 ∷ []; session_key = 2 ∷ [] };
}

empty-IsCache : IsCache (empty_cache 4096)
unfolding contains
empty-IsCache = record {
  distinct_seen = tt;
  distinct = tt;
  same = λ b. refl;
  bounded = omega arith;
}

safe : IsSafeParties (record { station = station; drone = drone })
unfolding lookup
safe = record {
  station = record { ephemeral = λ id session h. absurd (ground arith); cache = empty-IsCache };
  drone = record { ephemeral = inl refl; cache = empty-IsCache };
}

-- Requests, a response, and a false confirmation.
Leads-IsSafeParties_example : IsSafeParties (record { station = station_burnt; drone = drone_2 })
Leads-IsSafeParties_example =
    Leads-IsSafeParties env (record { station = station; drone = drone })
      (record { station = station_burnt; drone = drone_2 }) safe
      (then_step
        (then_step
          (then_step (then_step at_start (starts 100 runs.starts))
            (station_accepts b1 150 (inl runs.accepts_b1)))
          (drone_accepts b2 200 (inl runs.accepts_b2)))
        (station_refuses false_b3 240 (inr runs.refuses_b3)))

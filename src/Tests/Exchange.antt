-- ===== src/Tests/Exchange.antt =====
-- The messages and the states of one run of Phase 2, computed.
use uav_omnet.Base.{
  ◌≡◌, refl, false, [], ◌∷◌, to_u16, eq_ℤ, Option, none, some, take, drop, bytes_eq, replicate,
  lookup, insert,
}
use uav_omnet.Core.{FieldId}
use uav_omnet.Wire.{
  AbortReason, Message, blank, set_in, mac_input, mac_type_tag, encode_timestamp, decode_timestamp,
}
use uav_omnet.Crypto.Drbg
use uav_omnet.Crypto.X25519
use uav_omnet.Protocol.Flow.{Flow, done, stop, fault}
use uav_omnet.Protocol.Replay.{contains, evict, offer, timestamp_fresh}
use uav_omnet.Protocol.Credentials.{
  pack_credentials, read_prefixed, unpack_entries, unpack_credentials,
}
use uav_omnet.Protocol.State.{GroundStation, Uav}
use uav_omnet.Protocol.GroundStation.{
  find_by_tid, pair_credential, credentials_for, tids_for, handle_m1, handle_m3,
}
use uav_omnet.Protocol.Uav.{start_phase2, handle_m2, handle_m4}
use uav_omnet.Protocol.Safety.Station.{field}
use uav_omnet.Protocol.Safety.Drone.{expected_input2}
use uav_omnet.Tests.Toy.{sha3_256, sum, mac, pair_of, quad_of, open_tagged}
use uav_omnet.Tests.Encoding.{encode_field, encode_each, encode_fields}
use uav_omnet.Tests.World.{env, puf, seeded, station, drone}

module _ {κ} {S : Type κ} where
  abbrev pub message_of : Flow (Option Message) S → Message
  message_of (done (some m) s) = m
  message_of (done none s) = blank
  message_of (stop r s) = blank
  message_of fault = blank

  abbrev pub state_after : S → Flow (Option Message) S → S
  state_after s (done a t) = t
  state_after s (stop r t) = t
  state_after s fault = s

abbrev pub m1 : Message
m1 = message_of (start_phase2 env puf 100 drone)

abbrev pub drone_1 : Uav
drone_1 = state_after drone (start_phase2 env puf 100 drone)

abbrev pub m2 : Message
m2 = message_of (handle_m1 env m1 150 station)

abbrev pub station_1 : GroundStation
station_1 = state_after station (handle_m1 env m1 150 station)

abbrev pub m3 : Message
m3 = message_of (handle_m2 env m2 200 drone_1)

abbrev pub drone_2 : Uav
drone_2 = state_after drone_1 (handle_m2 env m2 200 drone_1)

abbrev pub m4 : Message
m4 = message_of (handle_m3 env m3 250 station_1)

abbrev pub station_2 : GroundStation
station_2 = state_after station_1 (handle_m3 env m3 250 station_1)

abbrev pub drone_3 : Uav
drone_3 = state_after drone_2 (handle_m4 env m4 300 drone_2)

-- Messages that are refused: M1 again, and M2, M3 and M4 with a wrong tag or package.
abbrev pub forged : FieldId → Message → Message
forged id m = set_in m id (999 ∷ [])

abbrev pub station_1_again : GroundStation
station_1_again = state_after station_1 (handle_m1 env m1 160 station_1)

-- What the handlers do on these messages.
pub record Runs : Type 0 where
  pub accepts_m1 : handle_m1 env m1 150 station ≡ done (some m2) station_1
  pub accepts_m3 : handle_m3 env m3 250 station_1 ≡ done (some m4) station_2
  pub accepts_m4 : handle_m4 env m4 300 drone_2 ≡ done none drone_3
  pub starts : start_phase2 env puf 100 drone ≡ done (some m1) drone_1
  pub accepts_m2 : handle_m2 env m2 200 drone_1 ≡ done (some m3) drone_2
  pub rejects_m1 : handle_m1 env m1 160 station_1 ≡ stop AbortReason.replayed_nonce station_1_again
  pub rejects_m3 :
      handle_m3 env (forged FieldId.mac_tag m3) 250 station_1
      ≡ stop AbortReason.mac_verify_failed station_1
  pub rejects_m4 :
      handle_m4 env (forged FieldId.cred_pkg m4) 300 drone_2
      ≡ stop AbortReason.aead_open_failed drone_2
  pub strict : drone_1.legacy_no_gs_auth ≡ false
  pub forged_m2 :
      env.suite.mac_verify drone_1.phase2.auth_key
        (expected_input2 env drone_1 (forged FieldId.mac_tag m2))
        (field (forged FieldId.mac_tag m2) FieldId.mac_tag)
      ≡ false

pub runs : Runs
unfolding start_phase2 handle_m1 handle_m2 handle_m3 handle_m4 seeded Drbg.bytes Drbg.fill
    Drbg.refill_if_read Drbg.refill Drbg.take_some Drbg.counter_bytes Drbg.reseed sha3_256 sum take
    drop contains timestamp_fresh find_by_tid bytes_eq replicate mac_input mac_type_tag
    encode_timestamp decode_timestamp X25519.x25519_generate X25519.x25519_derive X25519.erase mac
    pair_of quad_of encode_field encode_each encode_fields offer evict lookup insert
    pack_credentials read_prefixed unpack_entries unpack_credentials open_tagged credentials_for
    tids_for pair_credential to_u16 eq_ℤ
runs = record {
  accepts_m1 = refl;
  accepts_m3 = refl;
  accepts_m4 = refl;
  starts = refl;
  accepts_m2 = refl;
  rejects_m1 = refl;
  rejects_m3 = refl;
  rejects_m4 = refl;
  strict = refl;
  forged_m2 = refl;
}

-- ===== src/Protocol/Safety/Station.antt =====
-- Protocol.cc, `handleM1` and `handleM3` of the ground station against any message.
use uav_omnet.Base.{ℕ, ◌≡◌, ◌⊎◌, true, Option, none, some, [], ◌∷◌, Bytes, lookup, arith}
use uav_omnet.Core.{FieldId, of_list}
use uav_omnet.Wire.{MessageType, AbortReason, Message, get_or_else, mac_input, decode_timestamp}
use uav_omnet.Protocol.Flow.{done, stop}
use uav_omnet.Protocol.Replay.{offer, timestamp_fresh}
use uav_omnet.Protocol.State.{Env, DeviceRecord, GroundStation, Phase2GsSession, no_gs_session}
use uav_omnet.Protocol.GroundStation.{or_no_device, find_by_tid, handle_m1, handle_m3}
use uav_omnet.Protocol.Handshake.Terms.{auth_key_of, input_of_m3}

-- A field of a message; empty if it is absent.
abbrev pub field : Message → FieldId → Bytes
field m id = get_or_else m id []

abbrev or_no_session : Option Phase2GsSession → Phase2GsSession
or_no_session none = no_gs_session
or_no_session (some session) = session

-- The record that a message's identity leads to, and its session.
abbrev pub device_of : GroundStation → Message → DeviceRecord
device_of gs m = or_no_device (find_by_tid (field m FieldId.tid) gs.devices)

abbrev pub session_of : GroundStation → Message → Phase2GsSession
session_of gs m = or_no_session (lookup (device_of gs m).uav_id gs.sessions)

abbrev or_zero : Option ℕ → ℕ
or_zero none = 0
or_zero (some n) = n

-- An M3 comes from a known device with a session, and its authenticator verifies over the transcript
-- of that session.
pub record IsAuthenticM3 (env : Env) (gs : GroundStation) (m3 : Message) : Type 0 where
  pub known : find_by_tid (field m3 FieldId.tid) gs.devices ≡ some (device_of gs m3)
  pub in_session : lookup (device_of gs m3).uav_id gs.sessions ≡ some (session_of gs m3)
  pub verified :
      env.suite.mac_verify
        (session_of gs m3).auth_key
        (input_of_m3 env m3.suite_id (field m3 FieldId.tid) (session_of gs m3).transcript)
        (field m3 FieldId.mac_tag)
      ≡ true

-- An M1 comes from a known device, its authenticator verifies over the fields received, its nonce is
-- new and its time in the window.
pub record IsAuthenticM1 (env : Env) (gs : GroundStation) (m1 : Message) (now_ms : ℕ) : Type 0 where
  pub known : find_by_tid (field m1 FieldId.tid) gs.devices ≡ some (device_of gs m1)
  pub verified :
      env.suite.mac_verify
        (auth_key_of env (device_of gs m1).mk)
        (mac_input env.core m1.suite_id MessageType.p2_m1_auth_request (
          of_list (
            (FieldId.tid, field m1 FieldId.tid)
            ∷ (FieldId.nonce_1, field m1 FieldId.nonce_1)
            ∷ (FieldId.timestamp, field m1 FieldId.timestamp)
            ∷ (FieldId.epk_a, field m1 FieldId.epk_a)
            ∷ [])))
        (field m1 FieldId.mac_tag)
      ≡ true
  pub new : (offer gs.replay (field m1 FieldId.nonce_1)).1 ≡ true
  pub timed :
      (t1 : ℕ) × (decode_timestamp env.core (field m1 FieldId.timestamp) ≡ some t1)
      × (timestamp_fresh now_ms t1 gs.window_ms ≡ true)

module _ (env : Env) where
  open env use {core, suite}

  -- A rejected M1 leaves everything but the replay cache as it was: no session, no record and no
  -- random byte is touched, whatever the message and the reason.
  pub handle_m1_rejects :
      (m1 : Message) (now_ms : ℕ) (gs gs' : GroundStation) (r : AbortReason)
      → handle_m1 env m1 now_ms gs ≡ stop r gs'
      → gs' ≡ record gs { replay = gs'.replay }
  unfolding handle_m1
  handle_m1_rejects m1 now_ms gs gs' r h = ground arith

  -- An M1 is accepted only if its identity is known, its authenticator verifies, over the fields that
  -- were received, under the key of the record found, its nonce is new and its time in the window.
  pub handle_m1_authentic :
      (m1 : Message) (now_ms : ℕ) (gs gs' : GroundStation) (reply : Option Message)
      → handle_m1 env m1 now_ms gs ≡ done reply gs'
      → IsAuthenticM1 env gs m1 now_ms
  unfolding handle_m1
  handle_m1_authentic m1 now_ms gs gs' reply h = record {
    known = ground arith;
    verified = ground arith;
    new = ground arith;
    timed =
        (or_zero (decode_timestamp core (field m1 FieldId.timestamp)), ground arith, ground arith);
  }

  -- An accepted M1 changes no device record: neither an identity nor a master key.
  pub devices-handle_m1 :
      (m1 : Message) (now_ms : ℕ) (gs gs' : GroundStation) (reply : Option Message)
      → handle_m1 env m1 now_ms gs ≡ done reply gs'
      → gs'.devices ≡ gs.devices
  unfolding handle_m1
  devices-handle_m1 m1 now_ms gs gs' reply h = ground arith

  -- An M3 that is refused leaves the ground station as it was, unless it is authentic and the key
  -- exchange or the seal fails after that.
  pub handle_m3_rejects :
      (m3 : Message) (now_ms : ℕ) (gs gs' : GroundStation) (r : AbortReason)
      → handle_m3 env m3 now_ms gs ≡ stop r gs'
      → (gs' ≡ gs) ⊎ IsAuthenticM3 env gs m3
  unfolding handle_m3
  handle_m3_rejects m3 now_ms gs gs' r h = ground arith

  -- M4 goes out only for an authentic M3.
  pub handle_m3_authentic :
      (m3 : Message) (now_ms : ℕ) (gs gs' : GroundStation) (reply : Option Message)
      → handle_m3 env m3 now_ms gs ≡ done reply gs'
      → IsAuthenticM3 env gs m3
  unfolding handle_m3
  handle_m3_authentic m3 now_ms gs gs' reply h = record {
    known = ground arith;
    in_session = ground arith;
    verified = ground arith;
  }

-- ===== src/Baseline/GroundStation.antt =====
-- BaselineSigAuth.cc, class `BaselineGroundStationProtocol`.
use uav_omnet.Base.{
  ℕ, Bool, true, Option, none, some, [], ◌∷◌, ◌++◌, ◌&&◌, Bytes, ◌==◌, if◌then◌else◌, length, ℤ,
  negsuc, lookup, insert,
}
use uav_omnet.Core.{FieldId, of_list}
use uav_omnet.Wire.{
  MessageType, AbortReason, Message, blank, eq_type, mac_input, decode_id, encode_timestamp,
  decode_timestamp,
}
use uav_omnet.Crypto.X25519.{x25519_key_len, x25519_generate, x25519_derive}
use uav_omnet.Crypto.X25519
use uav_omnet.Crypto.Label
use uav_omnet.Crypto.Signature.{valid}
use uav_omnet.Crypto.Drbg.{Drbg}
use uav_omnet.Crypto.Drbg
use uav_omnet.Protocol.Flow.{
  done, fault, Handler, ◌>>=◌, ◌>>◌, return, or_abort, or_throw, require, read, need,
}
use uav_omnet.Protocol.Replay.{timestamp_fresh, offer, empty_cache}
use uav_omnet.Protocol.State.{nonce_len}
use uav_omnet.Baseline.State.{
  BaselineEnv, BaselineGsSession, BaselineGroundStation, no_baseline_gs_session,
}

module _ {Key : Type 0} where
  unfoldable pub construct : ℕ → Drbg → BaselineGroundStation Key
  construct window_ms rng = record {
    window_ms = window_ms;
    keypair = none;
    uav_public_keys = [];
    sessions = [];
    replay = empty_cache 4096;
    rng = rng;
  }

  -- With what `generateKeypair` gives.
  unfoldable pub ensure_own_keypair :
      Option Key → BaselineGroundStation Key → BaselineGroundStation Key
  ensure_own_keypair generated gs =
      if valid gs.keypair then gs else record gs { keypair = generated }

  -- `replay_.offer(nonce)`.
  unfoldable pub offer_nonce : Bytes → Handler (BaselineGroundStation Key) Bool
  offer_nonce nonce gs =
      let (cache, fresh) = offer gs.replay nonce in done fresh (record gs { replay = cache })

  unfoldable pub put_session :
      ℤ → BaselineGsSession → Handler (BaselineGroundStation Key) (Unit {0})
  put_session id session gs = done tt (record gs { sessions = insert id session gs.sessions })

  -- `find(uavId)` where neither the entry nor its pointer is missing.
  unfoldable pub key_of : ℤ → BaselineGroundStation Key → Option Key
  key_of id gs = elim (lookup id gs.uav_public_keys) [ none ↦ none | some key ↦ key ]

module _ {Key : Type 0} (env : BaselineEnv Key) where
  open env use {core, sig_suite, sym_suite, ossl, sha3_256}

  unfoldable pub enroll_uav : ℤ → Bytes → BaselineGroundStation Key → BaselineGroundStation Key
  enroll_uav id spki gs = record gs {
    uav_public_keys = insert id (sig_suite.key_from_public_bytes spki) gs.uav_public_keys;
  }

  unfoldable pub public_key_bytes : BaselineGroundStation Key → Bytes
  public_key_bytes gs = sig_suite.public_key_bytes gs.keypair

  -- `rng_.bytes(n)`.
  unfoldable pub draw : ℕ → Handler (BaselineGroundStation Key) Bytes
  draw n gs = elim (Drbg.bytes sha3_256 n gs.rng) [
    | none ↦ fault
    | some (out, rng') ↦ done out (record gs { rng = rng' })
  ]

  -- The second half of `handleM1`: the signed M1 gets a session and M2.
  unfoldable pub answer_m1 :
      Message
      → Bytes
      → ℤ
      → Bytes
      → ℕ
      → Bytes
      → Bytes
      → ℕ
      → Handler (BaselineGroundStation Key) (Option Message)
  unfolding draw put_session
  answer_m1 m1 sender id n1 t1 epk_a input1 now_ms = do
    n2 ← draw nonce_len
    seed ← draw 32
    ephemeral ← or_throw (x25519_generate ossl seed)
    let epk_b = ephemeral.public_key
    let signed2 = of_list (
        (FieldId.sender_id, sender)
        ∷ (FieldId.nonce_1, n1)
        ∷ (FieldId.nonce_2, n2)
        ∷ (FieldId.timestamp, encode_timestamp core now_ms)
        ∷ (FieldId.epk_a, epk_a)
        ∷ (FieldId.epk_b, epk_b)
        ∷ [])
    let input2 = mac_input core m1.suite_id MessageType.b1_m2_gs_response signed2
    gs ← read
    put_session id (record no_baseline_gs_session {
      uav_id = id;
      n1 = n1;
      n2 = n2;
      t1 = t1;
      t2 = now_ms;
      epk_a = epk_a;
      epk_b = epk_b;
      ephemeral = ephemeral;
      transcript = input1 ++ input2;
    })
    return (
        some (record blank {
          type = MessageType.b1_m2_gs_response;
          suite_id = m1.suite_id;
          sender_id = negsuc 0;
          receiver_id = id;
          fields = of_list (
              (FieldId.nonce_2, n2)
              ∷ (FieldId.timestamp, encode_timestamp core now_ms)
              ∷ (FieldId.epk_b, epk_b)
              ∷ (FieldId.signature, sig_suite.sign gs.keypair input2)
              ∷ []);
        }))

  -- An id of a wrong length is an exception that nothing here catches.
  unfoldable pub handle_m1 : Message → ℕ → Handler (BaselineGroundStation Key) (Option Message)
  unfolding offer_nonce answer_m1 key_of
  handle_m1 m1 now_ms = do
    require (eq_type m1.type MessageType.b1_m1_auth_request) AbortReason.unexpected_message
    sender ← need m1 FieldId.sender_id
    n1 ← need m1 FieldId.nonce_1
    timestamp ← need m1 FieldId.timestamp
    epk_a ← need m1 FieldId.epk_a
    signature ← need m1 FieldId.signature
    id ← or_throw (decode_id core sender)
    require (length n1 == nonce_len && length epk_a == x25519_key_len) AbortReason.malformed_field
    t1 ← or_abort (decode_timestamp core timestamp) AbortReason.malformed_field
    gs ← read
    require (timestamp_fresh now_ms t1 gs.window_ms) AbortReason.stale_timestamp
    fresh ← offer_nonce n1
    require fresh AbortReason.replayed_nonce
    key ← or_abort (key_of id gs) AbortReason.unknown_identity
    let signed1 = of_list (
        (FieldId.sender_id, sender)
        ∷ (FieldId.nonce_1, n1)
        ∷ (FieldId.timestamp, timestamp)
        ∷ (FieldId.epk_a, epk_a)
        ∷ [])
    let input1 = mac_input core m1.suite_id MessageType.b1_m1_auth_request signed1
    require (sig_suite.verify key input1 signature) AbortReason.mac_verify_failed
    answer_m1 m1 sender id n1 t1 epk_a input1 now_ms

  -- The session key is stored and the scalar erased before the confirmation is verified.
  unfoldable pub handle_m3 : Message → ℕ → Handler (BaselineGroundStation Key) (Option Message)
  unfolding put_session
  handle_m3 m3 now_ms = do
    require (eq_type m3.type MessageType.b1_m3_uav_confirm) AbortReason.unexpected_message
    tag ← need m3 FieldId.mac_tag
    gs ← read
    session ← or_abort (lookup m3.sender_id gs.sessions) AbortReason.unexpected_message
    shared ←
        or_abort (x25519_derive ossl session.ephemeral.secret session.epk_a) AbortReason.dh_failed
    let key = sym_suite.kdf shared session.transcript Label.p2_sess [] sym_suite.key_len
    put_session m3.sender_id (record session {
      session_key = key;
      ephemeral = X25519.erase session.ephemeral;
      ephemeral_erased = true;
    })
    require (sym_suite.mac_verify key session.transcript tag) AbortReason.mac_verify_failed
    let confirm_input = session.transcript ++ core.from_string "confirm"
    return (
        some (record blank {
          type = MessageType.b1_m4_gs_confirm;
          suite_id = m3.suite_id;
          sender_id = negsuc 0;
          receiver_id = session.uav_id;
          fields = of_list ((FieldId.mac_tag, sym_suite.mac key confirm_input) ∷ []);
        }))

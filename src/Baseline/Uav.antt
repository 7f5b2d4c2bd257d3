-- ===== src/Baseline/Uav.antt =====
-- BaselineSigAuth.cc, class `BaselineUavProtocol`.
use uav_omnet.Base.{
  ℕ, Bool, true, not, Option, none, some, [], ◌∷◌, ◌++◌, ◌&&◌, Bytes, is_empty, ◌==◌, if◌then◌else◌,
  length, ℤ, negsuc,
}
use uav_omnet.Core.{FieldId, of_list}
use uav_omnet.Wire.{
  MessageType, AbortReason, Message, blank, eq_type, mac_input, encode_id, encode_timestamp,
  decode_timestamp,
}
use uav_omnet.Crypto.X25519.{x25519_key_len, x25519_generate, x25519_derive}
use uav_omnet.Crypto.X25519
use uav_omnet.Crypto.Label
use uav_omnet.Crypto.Signature.{valid}
use uav_omnet.Crypto.Drbg.{Drbg}
use uav_omnet.Crypto.Drbg
use uav_omnet.Protocol.Flow.{
  done, fault, Handler, ◌>>=◌, ◌>>◌, return, or_abort, or_throw, require, read, need,
}
use uav_omnet.Protocol.Replay.{timestamp_fresh, offer, empty_cache}
use uav_omnet.Protocol.State.{nonce_len}
use uav_omnet.Baseline.State.{BaselineEnv, BaselineUavSession, BaselineUav, no_baseline_uav_session}

module _ {Key : Type 0} where
  unfoldable pub construct : ℤ → ℕ → Drbg → BaselineUav Key
  construct id window_ms rng = record {
    uav_id = id;
    window_ms = window_ms;
    keypair = none;
    gs_public_key = none;
    session = no_baseline_uav_session;
    replay = empty_cache 4096;
    rng = rng;
  }

  -- With what `generateKeypair` gives.
  unfoldable pub ensure_own_keypair : Option Key → BaselineUav Key → BaselineUav Key
  ensure_own_keypair generated uav =
      if valid uav.keypair then uav else record uav { keypair = generated }

  -- `replay_.offer(nonce)`.
  unfoldable pub offer_nonce : Bytes → Handler (BaselineUav Key) Bool
  offer_nonce nonce uav =
      let (cache, fresh) = offer uav.replay nonce in done fresh (record uav { replay = cache })

  unfoldable pub set_session : BaselineUavSession → Handler (BaselineUav Key) (Unit {0})
  set_session session uav = done tt (record uav { session = session })

module _ {Key : Type 0} (env : BaselineEnv Key) where
  open env use {core, sig_suite, sym_suite, ossl, sha3_256}

  unfoldable pub provision_gs_public_key : Bytes → BaselineUav Key → BaselineUav Key
  provision_gs_public_key spki uav = record uav {
    gs_public_key = sig_suite.key_from_public_bytes spki;
  }

  unfoldable pub public_key_bytes : BaselineUav Key → Bytes
  public_key_bytes uav = sig_suite.public_key_bytes uav.keypair

  -- `rng_.bytes(n)`.
  unfoldable pub draw : ℕ → Handler (BaselineUav Key) Bytes
  draw n uav = elim (Drbg.bytes sha3_256 n uav.rng) [
    | none ↦ fault
    | some (out, rng') ↦ done out (record uav { rng = rng' })
  ]

  unfoldable pub start_phase2 : ℕ → Handler (BaselineUav Key) (Option Message)
  unfolding draw set_session
  start_phase2 now_ms = do
    uav ← read
    require (valid uav.gs_public_key) AbortReason.not_authenticated
    n1 ← draw nonce_len
    seed ← draw 32
    ephemeral ← or_throw (x25519_generate ossl seed)
    let signed1 = of_list (
        (FieldId.sender_id, encode_id core uav.uav_id)
        ∷ (FieldId.nonce_1, n1)
        ∷ (FieldId.timestamp, encode_timestamp core now_ms)
        ∷ (FieldId.epk_a, ephemeral.public_key)
        ∷ [])
    let input1 = mac_input core 0 MessageType.b1_m1_auth_request signed1
    set_session (record no_baseline_uav_session {
      n1 = n1;
      t1 = now_ms;
      ephemeral = ephemeral;
      transcript = input1;
    })
    return (
        some (record blank {
          type = MessageType.b1_m1_auth_request;
          suite_id = 0;
          sender_id = uav.uav_id;
          receiver_id = negsuc 0;
          fields = of_list (
              (FieldId.sender_id, encode_id core uav.uav_id)
              ∷ (FieldId.nonce_1, n1)
              ∷ (FieldId.timestamp, encode_timestamp core now_ms)
              ∷ (FieldId.epk_a, ephemeral.public_key)
              ∷ (FieldId.signature, sig_suite.sign uav.keypair input1)
              ∷ []);
        }))

  -- The second half of `handleM2`: the signed M2 is answered by M3, and the session key is derived.
  unfoldable pub answer_m2 :
      Message → Bytes → Bytes → Bytes → Handler (BaselineUav Key) (Option Message)
  unfolding set_session
  answer_m2 m2 n2 epk_b input2 = do
    uav ← read
    let session = record uav.session { n2 = n2; transcript = uav.session.transcript ++ input2 }
    set_session session
    shared ← or_abort (x25519_derive ossl session.ephemeral.secret epk_b) AbortReason.dh_failed
    let key = sym_suite.kdf shared session.transcript Label.p2_sess [] sym_suite.key_len
    set_session (record session {
      session_key = key;
      ephemeral = X25519.erase session.ephemeral;
      ephemeral_erased = true;
    })
    return (
        some (record blank {
          type = MessageType.b1_m3_uav_confirm;
          suite_id = m2.suite_id;
          sender_id = uav.uav_id;
          receiver_id = negsuc 0;
          fields = of_list ((FieldId.mac_tag, sym_suite.mac key session.transcript) ∷ []);
        }))

  -- The ground station's key was provisioned before M1; without it the dereference is undefined.
  unfoldable pub handle_m2 : Message → ℕ → Handler (BaselineUav Key) (Option Message)
  unfolding offer_nonce answer_m2
  handle_m2 m2 now_ms = do
    require (eq_type m2.type MessageType.b1_m2_gs_response) AbortReason.unexpected_message
    uav ← read
    require (not (is_empty uav.session.transcript)) AbortReason.unexpected_message
    n2 ← need m2 FieldId.nonce_2
    timestamp ← need m2 FieldId.timestamp
    epk_b ← need m2 FieldId.epk_b
    signature ← need m2 FieldId.signature
    require (length n2 == nonce_len && length epk_b == x25519_key_len) AbortReason.malformed_field
    t2 ← or_abort (decode_timestamp core timestamp) AbortReason.malformed_field
    require (timestamp_fresh now_ms t2 uav.window_ms) AbortReason.stale_timestamp
    fresh ← offer_nonce n2
    require fresh AbortReason.replayed_nonce
    let signed2 = of_list (
        (FieldId.sender_id, encode_id core uav.uav_id)
        ∷ (FieldId.nonce_1, uav.session.n1)
        ∷ (FieldId.nonce_2, n2)
        ∷ (FieldId.timestamp, timestamp)
        ∷ (FieldId.epk_a, uav.session.ephemeral.public_key)
        ∷ (FieldId.epk_b, epk_b)
        ∷ [])
    let input2 = mac_input core m2.suite_id MessageType.b1_m2_gs_response signed2
    key ← or_throw uav.gs_public_key
    require (sig_suite.verify key input2 signature) AbortReason.mac_verify_failed
    answer_m2 m2 n2 epk_b input2

  unfoldable pub handle_m4 : Message → ℕ → Handler (BaselineUav Key) (Option Message)
  unfolding set_session
  handle_m4 m4 now_ms = do
    require (eq_type m4.type MessageType.b1_m4_gs_confirm) AbortReason.unexpected_message
    uav ← read
    require (not (is_empty uav.session.session_key)) AbortReason.unexpected_message
    tag ← need m4 FieldId.mac_tag
    let confirm_input = uav.session.transcript ++ core.from_string "confirm"
    require (sym_suite.mac_verify uav.session.session_key confirm_input tag)
        AbortReason.mac_verify_failed
    set_session (record uav.session { established = true })
    return none

-- ===== src/Protocol/Uav.antt =====
-- Protocol.cc, class `UavProtocol`, the drone in Phase 2: M1 is sent, M2 and M4 are answered.
use uav_omnet.Base.{
  ℕ, ◌+◌, Bool, true, false, not, Option, none, some, [], ◌∷◌, ◌++◌, ◌&&◌, ◌||◌, Bytes, is_empty,
  ◌==◌, if◌then◌else◌, length, take, drop, ℤ, negsuc,
}
use uav_omnet.Core.{FieldId, of_list}
use uav_omnet.Wire.{
  MessageType, AbortReason, Message, blank, eq_type, mac_input, encode_timestamp, decode_timestamp,
}
use uav_omnet.Crypto.X25519.{x25519_key_len, x25519_generate, x25519_derive}
use uav_omnet.Crypto.X25519
use uav_omnet.Crypto.Label
use uav_omnet.Crypto.Drbg.{Drbg}
use uav_omnet.Crypto.Drbg
use uav_omnet.Protocol.Flow.{
  done, fault, Handler, ◌>>=◌, ◌>>◌, return, or_abort, or_throw, require, read, write, need,
}
use uav_omnet.Protocol.Replay.{timestamp_fresh, offer, empty_cache}
use uav_omnet.Protocol.Credentials.{Package, unpack_credentials}
use uav_omnet.Protocol.State.{
  Env, PufModel, DeviceState, Phase2UavSession, Uav, nonce_len, no_state, no_phase2,
}

-- The constructor, and `provision`.
unfoldable pub construct : ℤ → ℕ → Drbg → Uav
construct id window_ms rng = record {
  uav_id = id;
  window_ms = window_ms;
  legacy_no_gs_auth = false;
  state = no_state;
  phase2 = no_phase2;
  peers = [];
  replay = empty_cache 4096;
  rng = rng;
}

unfoldable pub provision : DeviceState → Uav → Uav
provision state uav = record uav { state = state }

unfoldable pub put_phase2 : Phase2UavSession → Handler Uav (Unit {0})
put_phase2 session uav = done tt (record uav { phase2 = session })

unfoldable pub offer_nonce : Bytes → Handler Uav Bool
offer_nonce nonce uav =
    let (cache, fresh) = offer uav.replay nonce in done fresh (record uav { replay = cache })

module _ (env : Env) where
  open env use {core, suite, ossl, sha3_256, extractor}

  unfoldable pub draw : ℕ → Handler Uav Bytes
  draw n uav = elim (Drbg.bytes sha3_256 n uav.rng) [
    | none ↦ fault
    | some (out, rng') ↦ done out (record uav { rng = rng' })
  ]

  -- `none` is the result false.
  unfoldable pub regenerate_master_key : PufModel → Handler Uav (Option Bytes)
  regenerate_master_key puf = do
    fe ← or_throw extractor
    uav ← read
    let (noisy, rng') = puf.evaluate_noisy uav.state.challenge fe.required_puf_bits uav.rng
    write (record uav { rng = rng' })
    rep ← or_throw (fe.rep noisy uav.state.helper)
    return (if rep.ok then some rep.mk else none)

  unfoldable pub start_phase2 : PufModel → ℕ → Handler Uav (Option Message)
  unfolding regenerate_master_key draw put_phase2
  start_phase2 puf now_ms = do
    uav ← read
    require uav.state.provisioned AbortReason.not_authenticated
    regenerated ← regenerate_master_key puf
    mk ← or_abort regenerated AbortReason.fuzzy_extractor_failed
    let auth_key = suite.kdf mk [] Label.p2_auth [] suite.key_len
    put_phase2 (record no_phase2 { mk = mk; auth_key = auth_key })
    n1 ← draw nonce_len
    seed ← draw 32
    ephemeral ← or_throw (x25519_generate ossl seed)
    let tid = uav.state.tid
    let signed1 = of_list (
        (FieldId.tid, tid)
        ∷ (FieldId.nonce_1, n1)
        ∷ (FieldId.timestamp, encode_timestamp core now_ms)
        ∷ (FieldId.epk_a, ephemeral.public_key)
        ∷ [])
    let input1 = mac_input core suite.suite_id MessageType.p2_m1_auth_request signed1
    put_phase2 (record no_phase2 {
      mk = mk;
      auth_key = auth_key;
      n1 = n1;
      t1 = now_ms;
      tid_at_request = tid;
      ephemeral = ephemeral;
      transcript = input1;
    })
    return (
        some (record blank {
          type = MessageType.p2_m1_auth_request;
          suite_id = suite.suite_id;
          sender_id = uav.uav_id;
          receiver_id = negsuc 0;
          fields = of_list (
              (FieldId.tid, tid)
              ∷ (FieldId.nonce_1, n1)
              ∷ (FieldId.timestamp, encode_timestamp core now_ms)
              ∷ (FieldId.epk_a, ephemeral.public_key)
              ∷ (FieldId.mac_tag, suite.mac auth_key input1)
              ∷ []);
        }))

  -- The second half of `handleM2`: the M2 that is accepted is answered by M3, and the session key is
  -- derived.
  unfoldable pub answer_m2 : Message → Bytes → Bytes → Bytes → Handler Uav (Option Message)
  unfolding put_phase2
  answer_m2 m2 n2 epk_b input2 = do
    uav ← read
    let session = uav.phase2
    let transcript = session.transcript ++ input2
    put_phase2 (record session { n2 = n2; transcript = transcript })
    let signed3 = of_list ((FieldId.tid, uav.state.tid) ∷ [])
    let input3 = mac_input core m2.suite_id MessageType.p2_m3_uav_confirm signed3 ++ transcript
    let tag3 = suite.mac session.auth_key input3
    shared ← or_abort (x25519_derive ossl session.ephemeral.secret epk_b) AbortReason.dh_failed
    put_phase2 (record session {
      n2 = n2;
      transcript = transcript;
      session_key = suite.kdf (session.mk ++ shared) transcript Label.p2_sess [] suite.key_len;
      ephemeral = X25519.erase session.ephemeral;
      ephemeral_erased = true;
    })
    return (
        some (record blank {
          type = MessageType.p2_m3_uav_confirm;
          suite_id = m2.suite_id;
          sender_id = uav.uav_id;
          receiver_id = negsuc 0;
          fields = of_list ((FieldId.tid, uav.state.tid) ∷ (FieldId.mac_tag, tag3) ∷ []);
        }))

  unfoldable pub handle_m2 : Message → ℕ → Handler Uav (Option Message)
  unfolding offer_nonce answer_m2
  handle_m2 m2 now_ms = do
    require (eq_type m2.type MessageType.p2_m2_gs_response) AbortReason.unexpected_message
    uav ← read
    require (not (is_empty uav.phase2.auth_key)) AbortReason.unexpected_message
    n2 ← need m2 FieldId.nonce_2
    timestamp ← need m2 FieldId.timestamp
    epk_b ← need m2 FieldId.epk_b
    tag ← need m2 FieldId.mac_tag
    require (length n2 == nonce_len && length epk_b == x25519_key_len) AbortReason.malformed_field
    t2 ← or_abort (decode_timestamp core timestamp) AbortReason.malformed_field
    require (timestamp_fresh now_ms t2 uav.window_ms) AbortReason.stale_timestamp
    fresh ← offer_nonce n2
    require fresh AbortReason.replayed_nonce
    let signed2 = of_list (
        (FieldId.tid, uav.state.tid)
        ∷ (FieldId.nonce_1, uav.phase2.n1)
        ∷ (FieldId.nonce_2, n2)
        ∷ (FieldId.timestamp, timestamp)
        ∷ (FieldId.epk_a, uav.phase2.ephemeral.public_key)
        ∷ (FieldId.epk_b, epk_b)
        ∷ [])
    let input2 = mac_input core m2.suite_id MessageType.p2_m2_gs_response signed2
    require (suite.mac_verify uav.phase2.auth_key input2 tag || uav.legacy_no_gs_auth)
        AbortReason.mac_verify_failed
    answer_m2 m2 n2 epk_b input2

  -- What `handleM4` writes once the package is open.
  unfoldable pub accept_package : Package → Handler Uav (Option Message)
  accept_package pkg uav = done none (record uav {
    state = record uav.state { tid = if is_empty pkg.tid_new then uav.state.tid else pkg.tid_new };
    phase2 = record uav.phase2 {
      peer_credentials = pkg.creds;
      peer_tids = pkg.tids;
      established = true;
    };
  })

  unfoldable pub handle_m4 : Message → ℕ → Handler Uav (Option Message)
  unfolding accept_package
  handle_m4 m4 now_ms = do
    require (eq_type m4.type MessageType.p2_m4_gs_confirm) AbortReason.unexpected_message
    uav ← read
    let session = uav.phase2
    require (not (is_empty session.session_key)) AbortReason.unexpected_message
    sent_nonce ← need m4 FieldId.aead_nonce
    sealed ← need m4 FieldId.cred_pkg
    let aead_key_nonce =
        suite.kdf session.session_key [] Label.p2_aead []
          (suite.aead_key_len + suite.aead_nonce_len)
    let aead_key = take suite.aead_key_len aead_key_nonce
    let aead_nonce = drop suite.aead_key_len aead_key_nonce
    let aad = mac_input core m4.suite_id MessageType.p2_m4_gs_confirm (
        of_list (
          (FieldId.tid, session.tid_at_request)
          ∷ (FieldId.nonce_1, session.n1)
          ∷ (FieldId.nonce_2, session.n2)
          ∷ []))
    plaintext ←
        or_abort (suite.aead_open aead_key aead_nonce aad sealed) AbortReason.aead_open_failed
    pkg ← or_abort (unpack_credentials core plaintext) AbortReason.malformed_field
    accept_package pkg

-- ===== src/Protocol/GroundStation.antt =====
-- Protocol.cc, class `GroundStationProtocol`: enrolment and the answers to M1 and M3.
use uav_omnet.Base.{
  ℕ, ◌+◌, Bool, true, not, Option, none, some, [], ◌∷◌, ◌++◌, ◌&&◌, ◌||◌, Bytes, bytes_eq, is_empty,
  ◌==◌, if◌then◌else◌, length, take, drop, ℤ, pos, negsuc, eq_ℤ, min_ℤ, max_ℤ, to_u16, StdMap,
  lookup, insert,
}
use uav_omnet.Core.{FieldId, of_list}
use uav_omnet.Wire.{
  MessageType, AbortReason, Message, blank, eq_type, mac_input, encode_timestamp, decode_timestamp,
}
use uav_omnet.Crypto.X25519.{x25519_key_len, x25519_generate, x25519_derive}
use uav_omnet.Crypto.X25519
use uav_omnet.Crypto.Label
use uav_omnet.Crypto.Drbg.{Drbg}
use uav_omnet.Crypto.Drbg
use uav_omnet.Fe.Params.{GenResult}
use uav_omnet.Protocol.Flow.{
  done, fault, Handler, ◌>>=◌, ◌>>◌, return, or_abort, or_throw, require, read, need,
}
use uav_omnet.Protocol.Replay.{timestamp_fresh, offer, empty_cache}
use uav_omnet.Protocol.Credentials.{pack_credentials}
use uav_omnet.Protocol.State.{
  Env, PufModel, DeviceRecord, DeviceState, Phase2GsSession, GroundStation, nonce_len, tid_len,
  no_device, no_gs_session,
}

abbrev pub or_no_device : Option DeviceRecord → DeviceRecord
or_no_device none = no_device
or_no_device (some r) = r

-- Whether a record answers to a temporary identity: its own, or the pending one if there is one.
unfoldable pub answers_to : Bytes → DeviceRecord → Bool
answers_to tid r =
    bytes_eq r.tid tid || (not (is_empty r.pending_tid) && bytes_eq r.pending_tid tid)

unfoldable pub find_by_tid : Bytes → StdMap DeviceRecord → Option DeviceRecord
unfolding answers_to
find_by_tid tid [] = none
find_by_tid tid ((id, r) ∷ rest) = if answers_to tid r then some r else find_by_tid tid rest

-- `none` is the result false.
unfoldable pub session_key_for : ℤ → GroundStation → Option Bytes
session_key_for id gs = elim (lookup id gs.sessions) [
  | none ↦ none
  | some session ↦ if is_empty session.session_key then none else some session.session_key
]

-- The handlers below are those of one ground station.
module _ (env : Env) where
  open env use {core, suite, ossl, sha3_256, fe_params, extractor}

  -- The constructor; the master key is drawn from the generator.
  unfoldable pub construct : ℕ → Drbg → Option GroundStation
  construct window_ms rng = elim (Drbg.bytes sha3_256 suite.key_len rng) [
    | none ↦ none
    | some (key, rng') ↦ some (record {
      window_ms = window_ms;
      num_uavs = pos 0;
      gs_master_key = key;
      devices = [];
      sessions = [];
      replay = empty_cache 4096;
      rng = rng';
    })
  ]

  -- `rng_.bytes(n)`.
  unfoldable pub draw : ℕ → Handler GroundStation Bytes
  draw n gs = elim (Drbg.bytes sha3_256 n gs.rng) [
    | none ↦ fault
    | some (out, rng') ↦ done out (record gs { rng = rng' })
  ]

  -- `replay_.offer(nonce)`.
  unfoldable pub offer_nonce : Bytes → Handler GroundStation Bool
  offer_nonce nonce gs =
      let (cache, fresh) = offer gs.replay nonce in done fresh (record gs { replay = cache })

  unfoldable pub put_session : ℤ → Phase2GsSession → Handler GroundStation (Unit {0})
  put_session id session gs = done tt (record gs { sessions = insert id session gs.sessions })

  unfoldable pub put_device : ℤ → DeviceRecord → Handler GroundStation (Unit {0})
  put_device id r gs = done tt (record gs { devices = insert id r gs.devices })

  unfoldable pub pair_credential : Bytes → ℤ → ℤ → Bytes
  pair_credential master a b =
      let info = core.u16be (to_u16 (min_ℤ a b)) ++ core.u16be (to_u16 (max_ℤ a b)) in
      suite.kdf master [] Label.pair_cred info suite.key_len

  -- What `enroll` writes once the extractor has answered; `none` is the result false.
  unfoldable pub enroll_with :
      ℤ → Bytes → GenResult → Handler GroundStation (Option (DeviceRecord × DeviceState))
  enroll_with id challenge gen =
      let rec = record no_device {
        uav_id = id;
        challenge = challenge;
        helper = gen.helper;
        mk = gen.mk;
        tid = suite.kdf gen.mk [] Label.tid_rotate (core.u16be (to_u16 id)) tid_len;
        enrolled = true;
      } in
      let state : DeviceState = record {
        uav_id = id;
        tid = rec.tid;
        challenge = rec.challenge;
        helper = rec.helper;
        provisioned = true;
      } in
      if gen.ok then (do put_device id rec; return (some (rec, state))) else return none

  unfoldable pub enroll : ℤ → PufModel → Handler GroundStation (Option (DeviceRecord × DeviceState))
  enroll id device_puf = do
    fe ← or_throw extractor
    challenge ← draw 16
    seed ← draw fe_params.seed_bytes
    gen ← or_throw (fe.gen (device_puf.evaluate_ideal challenge fe.required_puf_bits) seed)
    enroll_with id challenge gen

  -- The second half of `handleM1`: the authentic M1 gets a session and M2.
  unfoldable pub answer_m1 :
      DeviceRecord
      → Message
      → Bytes
      → Bytes
      → ℕ
      → Bytes
      → Bytes
      → Bytes
      → ℕ
      → Handler GroundStation (Option Message)
  unfolding draw put_session
  answer_m1 rec m1 tid n1 t1 epk_a auth_key input1 now_ms = do
    n2 ← draw nonce_len
    seed ← draw 32
    ephemeral ← or_throw (x25519_generate ossl seed)
    let epk_b = ephemeral.public_key
    let signed2 = of_list (
        (FieldId.tid, tid)
        ∷ (FieldId.nonce_1, n1)
        ∷ (FieldId.nonce_2, n2)
        ∷ (FieldId.timestamp, encode_timestamp core now_ms)
        ∷ (FieldId.epk_a, epk_a)
        ∷ (FieldId.epk_b, epk_b)
        ∷ [])
    let input2 = mac_input core m1.suite_id MessageType.p2_m2_gs_response signed2
    put_session rec.uav_id (record no_gs_session {
      uav_id = rec.uav_id;
      auth_key = auth_key;
      n1 = n1;
      n2 = n2;
      t1 = t1;
      t2 = now_ms;
      epk_a = epk_a;
      epk_b = epk_b;
      ephemeral = ephemeral;
      transcript = input1 ++ input2;
    })
    return (
        some (record blank {
          type = MessageType.p2_m2_gs_response;
          suite_id = m1.suite_id;
          sender_id = negsuc 0;
          receiver_id = rec.uav_id;
          fields = of_list (
              (FieldId.nonce_2, n2)
              ∷ (FieldId.timestamp, encode_timestamp core now_ms)
              ∷ (FieldId.epk_b, epk_b)
              ∷ (FieldId.mac_tag, suite.mac auth_key input2)
              ∷ []);
        }))

  unfoldable pub handle_m1 : Message → ℕ → Handler GroundStation (Option Message)
  unfolding offer_nonce answer_m1
  handle_m1 m1 now_ms = do
    require (eq_type m1.type MessageType.p2_m1_auth_request) AbortReason.unexpected_message
    tid ← need m1 FieldId.tid
    n1 ← need m1 FieldId.nonce_1
    timestamp ← need m1 FieldId.timestamp
    epk_a ← need m1 FieldId.epk_a
    tag ← need m1 FieldId.mac_tag
    require (length epk_a == x25519_key_len && length n1 == nonce_len) AbortReason.malformed_field
    t1 ← or_abort (decode_timestamp core timestamp) AbortReason.malformed_field
    gs ← read
    require (timestamp_fresh now_ms t1 gs.window_ms) AbortReason.stale_timestamp
    fresh ← offer_nonce n1
    require fresh AbortReason.replayed_nonce
    rec ← or_abort (find_by_tid tid gs.devices) AbortReason.unknown_identity
    let auth_key = suite.kdf rec.mk [] Label.p2_auth [] suite.key_len
    let signed1 = of_list (
        (FieldId.tid, tid)
        ∷ (FieldId.nonce_1, n1)
        ∷ (FieldId.timestamp, timestamp)
        ∷ (FieldId.epk_a, epk_a)
        ∷ [])
    let input1 = mac_input core m1.suite_id MessageType.p2_m1_auth_request signed1
    require (suite.mac_verify auth_key input1 tag) AbortReason.mac_verify_failed
    answer_m1 rec m1 tid n1 t1 epk_a auth_key input1 now_ms

  -- The credentials of a device with every other, and their identities, in the order of the ids.
  unfoldable pub credentials_for : Bytes → ℤ → StdMap DeviceRecord → StdMap Bytes
  credentials_for master id [] = []
  credentials_for master id ((j, r) ∷ rest) =
      let others = credentials_for master id rest in
      if eq_ℤ j id then others else (j, pair_credential master id j) ∷ others

  unfoldable pub tids_for : ℤ → StdMap DeviceRecord → StdMap Bytes
  tids_for id [] = []
  tids_for id ((j, r) ∷ rest) =
      let others = tids_for id rest in if eq_ℤ j id then others else (j, r.tid) ∷ others

  -- The last part of `handleM3`: the identity is rotated and M4 is sealed.
  unfoldable pub answer_m3 :
      DeviceRecord → Message → Bytes → Phase2GsSession → Handler GroundStation (Option Message)
  unfolding put_device
  answer_m3 rec m3 tid session = do
    gs ← read
    let creds = credentials_for gs.gs_master_key rec.uav_id gs.devices
    let tids = tids_for rec.uav_id gs.devices
    let stored = or_no_device (lookup rec.uav_id gs.devices)
    let tid_new = suite.kdf stored.mk stored.tid Label.tid_rotate (session.n1 ++ session.n2) tid_len
    put_device rec.uav_id (record stored { pending_tid = tid_new })
    let plaintext = pack_credentials core creds tids tid_new
    let aead_key_nonce =
        suite.kdf session.session_key [] Label.p2_aead []
          (suite.aead_key_len + suite.aead_nonce_len)
    let aead_key = take suite.aead_key_len aead_key_nonce
    let aead_nonce = drop suite.aead_key_len aead_key_nonce
    let aad = mac_input core m3.suite_id MessageType.p2_m4_gs_confirm (
        of_list
          ((FieldId.tid, tid) ∷ (FieldId.nonce_1, session.n1) ∷ (FieldId.nonce_2, session.n2) ∷ []))
    ciphertext ←
        or_abort (suite.aead_seal aead_key aead_nonce aad plaintext) AbortReason.aead_open_failed
    return (
        some (record blank {
          type = MessageType.p2_m4_gs_confirm;
          suite_id = m3.suite_id;
          sender_id = negsuc 0;
          receiver_id = rec.uav_id;
          fields = of_list ((FieldId.aead_nonce, aead_nonce) ∷ (FieldId.cred_pkg, ciphertext) ∷ []);
        }))

  unfoldable pub handle_m3 : Message → ℕ → Handler GroundStation (Option Message)
  unfolding put_session answer_m3
  handle_m3 m3 now_ms = do
    require (eq_type m3.type MessageType.p2_m3_uav_confirm) AbortReason.unexpected_message
    tid ← need m3 FieldId.tid
    tag ← need m3 FieldId.mac_tag
    gs ← read
    rec ← or_abort (find_by_tid tid gs.devices) AbortReason.unknown_identity
    session ← or_abort (lookup rec.uav_id gs.sessions) AbortReason.unexpected_message
    let signed3 = of_list ((FieldId.tid, tid) ∷ [])
    let input3 =
        mac_input core m3.suite_id MessageType.p2_m3_uav_confirm signed3 ++ session.transcript
    require (suite.mac_verify session.auth_key input3 tag) AbortReason.mac_verify_failed
    put_session rec.uav_id (record session { m3_verified = true })
    shared ←
        or_abort (x25519_derive ossl session.ephemeral.secret session.epk_a) AbortReason.dh_failed
    let session' = record session {
      m3_verified = true;
      session_key = suite.kdf (rec.mk ++ shared) session.transcript Label.p2_sess [] suite.key_len;
      ephemeral = X25519.erase session.ephemeral;
      ephemeral_erased = true;
    }
    put_session rec.uav_id session'
    answer_m3 rec m3 tid session'

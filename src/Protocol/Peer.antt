-- ===== src/Protocol/Peer.antt =====
-- Protocol.cc, class `UavProtocol`, the drone in Phase 3: two drones agree on a key by P1, P2 and P3,
-- under the credential that M4 gave to both.
use uav_omnet.Base.{
  ℕ, Bool, true, false, not, Option, none, some, [], ◌∷◌, ◌++◌, Bytes, ◌==◌, if◌then◌else◌, length,
  ℤ, lookup, insert,
}
use uav_omnet.Core.{FieldId, empty_fields, of_list}
use uav_omnet.Wire.{
  MessageType, AbortReason, Message, blank, eq_type, mac_input, encode_id, decode_id,
  encode_timestamp, decode_timestamp,
}
use uav_omnet.Crypto.X25519.{x25519_key_len, x25519_generate, x25519_derive}
use uav_omnet.Crypto.X25519
use uav_omnet.Crypto.Label
use uav_omnet.Protocol.Flow.{
  done, stop, Handler, ◌>>=◌, ◌>>◌, return, or_abort, or_throw, require, read, need,
}
use uav_omnet.Protocol.Replay.{timestamp_fresh}
use uav_omnet.Protocol.State.{Env, Phase3Session, Uav, nonce_len, no_peer_session}
use uav_omnet.Protocol.Uav.{draw, offer_nonce}

-- `none` is the result false.
unfoldable pub peer_session_key : ℤ → Uav → Option Bytes
peer_session_key id uav = elim (lookup id uav.peers) [
  | none ↦ none
  | some session ↦ if session.established then some session.session_key else none
]

unfoldable pub has_peer_credential : ℤ → Uav → Bool
has_peer_credential id uav = elim (lookup id uav.phase2.peer_credentials) [
  | none ↦ false
  | some cred ↦ true
]

unfoldable pub inject_peer_credential : ℤ → Bytes → Bytes → Uav → Uav
inject_peer_credential id cred peer_tid uav = record uav {
  phase2 = record uav.phase2 {
    peer_credentials = insert id cred uav.phase2.peer_credentials;
    peer_tids = insert id peer_tid uav.phase2.peer_tids;
  };
}

unfoldable pub put_peer : ℤ → Phase3Session → Handler Uav (Unit {0})
put_peer id session uav = done tt (record uav { peers = insert id session uav.peers })

-- `phase2_.peerCredentials[id]`, which enters an empty credential where there is none.
unfoldable pub credential_of : ℤ → Handler Uav Bytes
credential_of id uav = elim (lookup id uav.phase2.peer_credentials) [
  | some cred ↦ done cred uav
  | none ↦ done [] (record uav {
    phase2 = record uav.phase2 { peer_credentials = insert id [] uav.phase2.peer_credentials };
  })
]

-- `it == end() || initiator != wanted`, for P2 (wanted) and P3 (not wanted).
unfoldable pub session_as : Bool → ℤ → Handler Uav Phase3Session
session_as initiator id uav = elim (lookup id uav.peers) [
  | none ↦ stop AbortReason.unexpected_message uav
  | some session ↦
      if (if initiator then session.initiator else not session.initiator)
      then done session uav
      else stop AbortReason.unexpected_message uav
]

module _ (env : Env) where
  open env use {core, suite, ossl}

  unfoldable pub start_phase3 : ℤ → ℕ → Handler Uav (Option Message)
  unfolding draw put_peer
  start_phase3 peer now_ms = do
    uav ← read
    cred ← or_abort (lookup peer uav.phase2.peer_credentials) AbortReason.no_such_peer
    let auth_key = suite.kdf cred [] Label.peer_auth [] suite.key_len
    nonce ← draw env nonce_len
    seed ← draw env 32
    ephemeral ← or_throw (x25519_generate ossl seed)
    let signed_p1 = of_list (
        (FieldId.sender_id, encode_id core uav.uav_id)
        ∷ (FieldId.receiver_id, encode_id core peer)
        ∷ (FieldId.nonce_1, nonce)
        ∷ (FieldId.timestamp, encode_timestamp core now_ms)
        ∷ (FieldId.epk_a, ephemeral.public_key)
        ∷ [])
    let input_p1 = mac_input core suite.suite_id MessageType.p3_p1_peer_request signed_p1
    put_peer peer (record no_peer_session {
      local_id = uav.uav_id;
      peer_id = peer;
      initiator = true;
      auth_key = auth_key;
      nonce_local = nonce;
      ephemeral = ephemeral;
      epk_local = ephemeral.public_key;
      p1_encoded = input_p1;
    })
    return (
        some (record blank {
          type = MessageType.p3_p1_peer_request;
          suite_id = suite.suite_id;
          sender_id = uav.uav_id;
          receiver_id = peer;
          fields = of_list (
              (FieldId.sender_id, encode_id core uav.uav_id)
              ∷ (FieldId.receiver_id, encode_id core peer)
              ∷ (FieldId.nonce_1, nonce)
              ∷ (FieldId.timestamp, encode_timestamp core now_ms)
              ∷ (FieldId.epk_a, ephemeral.public_key)
              ∷ (FieldId.mac_tag, suite.mac auth_key input_p1)
              ∷ []);
        }))

  -- The second half of `handleP1`: the authentic P1 gets a session and P2.
  unfoldable pub answer_p1 :
      Message → ℤ → Bytes → Bytes → Bytes → Bytes → Handler Uav (Option Message)
  unfolding draw put_peer
  answer_p1 p1 initiator nonce_remote epk_a auth_key input_p1 = do
    uav ← read
    nonce ← draw env nonce_len
    seed ← draw env 32
    ephemeral ← or_throw (x25519_generate ossl seed)
    let signed_p2 = of_list (
        (FieldId.sender_id, encode_id core initiator)
        ∷ (FieldId.receiver_id, encode_id core uav.uav_id)
        ∷ (FieldId.nonce_1, nonce_remote)
        ∷ (FieldId.nonce_2, nonce)
        ∷ (FieldId.epk_a, epk_a)
        ∷ (FieldId.epk_b, ephemeral.public_key)
        ∷ [])
    let input_p2 = mac_input core p1.suite_id MessageType.p3_p2_peer_response signed_p2
    put_peer initiator (record no_peer_session {
      local_id = uav.uav_id;
      peer_id = initiator;
      initiator = false;
      auth_key = auth_key;
      nonce_local = nonce;
      nonce_remote = nonce_remote;
      ephemeral = ephemeral;
      epk_local = ephemeral.public_key;
      epk_remote = epk_a;
      p1_encoded = input_p1;
      p2_encoded = input_p2;
    })
    return (
        some (record blank {
          type = MessageType.p3_p2_peer_response;
          suite_id = p1.suite_id;
          sender_id = uav.uav_id;
          receiver_id = initiator;
          fields = of_list (
              (FieldId.nonce_2, nonce)
              ∷ (FieldId.epk_b, ephemeral.public_key)
              ∷ (FieldId.mac_tag, suite.mac auth_key input_p2)
              ∷ []);
        }))

  unfoldable pub handle_p1 : Message → ℕ → Handler Uav (Option Message)
  unfolding offer_nonce answer_p1
  handle_p1 p1 now_ms = do
    require (eq_type p1.type MessageType.p3_p1_peer_request) AbortReason.unexpected_message
    sender ← need p1 FieldId.sender_id
    receiver ← need p1 FieldId.receiver_id
    nonce_remote ← need p1 FieldId.nonce_1
    timestamp ← need p1 FieldId.timestamp
    epk_a ← need p1 FieldId.epk_a
    tag ← need p1 FieldId.mac_tag
    initiator ← or_abort (decode_id core sender) AbortReason.malformed_field
    sent_at ← or_abort (decode_timestamp core timestamp) AbortReason.malformed_field
    uav ← read
    require (timestamp_fresh now_ms sent_at uav.window_ms) AbortReason.stale_timestamp
    fresh ← offer_nonce nonce_remote
    require fresh AbortReason.replayed_nonce
    cred ← or_abort (lookup initiator uav.phase2.peer_credentials) AbortReason.no_such_peer
    let auth_key = suite.kdf cred [] Label.peer_auth [] suite.key_len
    let signed_p1 = of_list (
        (FieldId.sender_id, sender)
        ∷ (FieldId.receiver_id, receiver)
        ∷ (FieldId.nonce_1, nonce_remote)
        ∷ (FieldId.timestamp, timestamp)
        ∷ (FieldId.epk_a, epk_a)
        ∷ [])
    let input_p1 = mac_input core p1.suite_id MessageType.p3_p1_peer_request signed_p1
    require (suite.mac_verify auth_key input_p1 tag) AbortReason.mac_verify_failed
    answer_p1 p1 initiator nonce_remote epk_a auth_key input_p1

  -- The end of `handleP2` and of `handleP3`: the secret is derived, and the key from it.
  unfoldable pub complete : ℤ → Phase3Session → Handler Uav (Unit {0})
  unfolding credential_of put_peer
  complete id session = do
    shared ←
        or_abort (x25519_derive ossl session.ephemeral.secret session.epk_remote)
          AbortReason.dh_failed
    cred ← credential_of session.peer_id
    put_peer id (record session {
      session_key =
          suite.kdf (cred ++ shared) (session.p1_encoded ++ session.p2_encoded) Label.peer_sess []
            suite.key_len;
      ephemeral = X25519.erase session.ephemeral;
      ephemeral_erased = true;
      established = true;
    })

  unfoldable pub handle_p2 : Message → ℕ → Handler Uav (Option Message)
  unfolding session_as put_peer complete
  handle_p2 p2 now_ms = do
    require (eq_type p2.type MessageType.p3_p2_peer_response) AbortReason.unexpected_message
    nonce_remote ← need p2 FieldId.nonce_2
    epk_b ← need p2 FieldId.epk_b
    tag ← need p2 FieldId.mac_tag
    found ← session_as true p2.sender_id
    let session = record found { nonce_remote = nonce_remote; epk_remote = epk_b }
    put_peer p2.sender_id session
    require (length epk_b == x25519_key_len) AbortReason.malformed_field
    let signed_p2 = of_list (
        (FieldId.sender_id, encode_id core session.local_id)
        ∷ (FieldId.receiver_id, encode_id core session.peer_id)
        ∷ (FieldId.nonce_1, session.nonce_local)
        ∷ (FieldId.nonce_2, nonce_remote)
        ∷ (FieldId.epk_a, session.epk_local)
        ∷ (FieldId.epk_b, epk_b)
        ∷ [])
    let input_p2 = mac_input core p2.suite_id MessageType.p3_p2_peer_response signed_p2
    require (suite.mac_verify session.auth_key input_p2 tag) AbortReason.mac_verify_failed
    let session' = record session { p2_encoded = input_p2 }
    put_peer p2.sender_id session'
    let input_p3 =
        (mac_input core p2.suite_id MessageType.p3_p3_peer_complete empty_fields
          ++ session'.p1_encoded)
        ++ session'.p2_encoded
    complete p2.sender_id session'
    return (
        some (record blank {
          type = MessageType.p3_p3_peer_complete;
          suite_id = p2.suite_id;
          sender_id = session.local_id;
          receiver_id = session.peer_id;
          fields = of_list ((FieldId.mac_tag, suite.mac session.auth_key input_p3) ∷ []);
        }))

  unfoldable pub handle_p3 : Message → ℕ → Handler Uav (Option Message)
  unfolding session_as complete
  handle_p3 p3 now_ms = do
    require (eq_type p3.type MessageType.p3_p3_peer_complete) AbortReason.unexpected_message
    tag ← need p3 FieldId.mac_tag
    session ← session_as false p3.sender_id
    let input_p3 =
        (mac_input core p3.suite_id MessageType.p3_p3_peer_complete empty_fields
          ++ session.p1_encoded)
        ++ session.p2_encoded
    require (suite.mac_verify session.auth_key input_p3 tag) AbortReason.mac_verify_failed
    complete p3.sender_id session
    return none

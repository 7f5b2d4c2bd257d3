-- ===== src/Protocol/Pairing/Terms.antt =====
-- The messages of an undisturbed Phase 3, the strings under their authenticators, and the states.
use uav_omnet.Base.{ℕ, true, false, [], ◌∷◌, ◌++◌, Bytes, ℤ}
use uav_omnet.Core.{FieldId, empty_fields, of_list}
use uav_omnet.Wire.{MessageType, Message, blank, mac_input, encode_id, encode_timestamp}
use uav_omnet.Crypto.X25519.{X25519KeyPair}
use uav_omnet.Crypto.X25519
use uav_omnet.Crypto.Label
use uav_omnet.Protocol.State.{Env, Phase3Session, no_peer_session}

module _ (env : Env) where
  open env use {core, suite}

  abbrev pub peer_key_of : Bytes → Bytes
  peer_key_of cred = suite.kdf cred [] Label.peer_auth [] suite.key_len

  abbrev pub input_of_p1 : ℤ → ℤ → Bytes → ℕ → Bytes → Bytes
  input_of_p1 a b n1 t1 epk_a = mac_input core suite.suite_id MessageType.p3_p1_peer_request (
      of_list (
        (FieldId.sender_id, encode_id core a)
        ∷ (FieldId.receiver_id, encode_id core b)
        ∷ (FieldId.nonce_1, n1)
        ∷ (FieldId.timestamp, encode_timestamp core t1)
        ∷ (FieldId.epk_a, epk_a)
        ∷ []))

  abbrev pub input_of_p2 : ℤ → ℤ → Bytes → Bytes → Bytes → Bytes → Bytes
  input_of_p2 a b n1 n2 epk_a epk_b =
      mac_input core suite.suite_id MessageType.p3_p2_peer_response (
        of_list (
          (FieldId.sender_id, encode_id core a)
          ∷ (FieldId.receiver_id, encode_id core b)
          ∷ (FieldId.nonce_1, n1)
          ∷ (FieldId.nonce_2, n2)
          ∷ (FieldId.epk_a, epk_a)
          ∷ (FieldId.epk_b, epk_b)
          ∷ []))

  abbrev pub input_of_p3 : Bytes → Bytes → Bytes
  input_of_p3 p1 p2 =
      (mac_input core suite.suite_id MessageType.p3_p3_peer_complete empty_fields ++ p1) ++ p2

  abbrev pub peer_session_key_of : Bytes → Bytes → Bytes → Bytes → Bytes
  peer_session_key_of cred shared p1 p2 =
      suite.kdf (cred ++ shared) (p1 ++ p2) Label.peer_sess [] suite.key_len

  abbrev pub message_p1 : ℤ → ℤ → Bytes → Bytes → ℕ → Bytes → Message
  message_p1 a b cred n1 t1 epk_a = record blank {
    type = MessageType.p3_p1_peer_request;
    suite_id = suite.suite_id;
    sender_id = a;
    receiver_id = b;
    fields = of_list (
        (FieldId.sender_id, encode_id core a)
        ∷ (FieldId.receiver_id, encode_id core b)
        ∷ (FieldId.nonce_1, n1)
        ∷ (FieldId.timestamp, encode_timestamp core t1)
        ∷ (FieldId.epk_a, epk_a)
        ∷ (FieldId.mac_tag, suite.mac (peer_key_of cred) (input_of_p1 a b n1 t1 epk_a))
        ∷ []);
  }

  abbrev pub message_p2 : ℤ → ℤ → Bytes → Bytes → Bytes → Bytes → Bytes → Message
  message_p2 a b cred n1 n2 epk_a epk_b = record blank {
    type = MessageType.p3_p2_peer_response;
    suite_id = suite.suite_id;
    sender_id = b;
    receiver_id = a;
    fields = of_list (
        (FieldId.nonce_2, n2)
        ∷ (FieldId.epk_b, epk_b)
        ∷ (FieldId.mac_tag, suite.mac (peer_key_of cred) (input_of_p2 a b n1 n2 epk_a epk_b))
        ∷ []);
  }

  abbrev pub message_p3 : ℤ → ℤ → Bytes → Bytes → Bytes → Message
  message_p3 a b cred p1 p2 = record blank {
    type = MessageType.p3_p3_peer_complete;
    suite_id = suite.suite_id;
    sender_id = a;
    receiver_id = b;
    fields = of_list ((FieldId.mac_tag, suite.mac (peer_key_of cred) (input_of_p3 p1 p2)) ∷ []);
  }

  abbrev pub initiating : ℤ → ℤ → Bytes → Bytes → ℕ → X25519KeyPair → Phase3Session
  initiating a b cred n1 t1 ephemeral = record no_peer_session {
    local_id = a;
    peer_id = b;
    initiator = true;
    auth_key = peer_key_of cred;
    nonce_local = n1;
    ephemeral = ephemeral;
    epk_local = ephemeral.public_key;
    p1_encoded = input_of_p1 a b n1 t1 ephemeral.public_key;
  }

  abbrev pub responding : ℤ → ℤ → Bytes → Bytes → Bytes → ℕ → Bytes → X25519KeyPair → Phase3Session
  responding a b cred n1 n2 t1 epk_a ephemeral = record no_peer_session {
    local_id = b;
    peer_id = a;
    initiator = false;
    auth_key = peer_key_of cred;
    nonce_local = n2;
    nonce_remote = n1;
    ephemeral = ephemeral;
    epk_local = ephemeral.public_key;
    epk_remote = epk_a;
    p1_encoded = input_of_p1 a b n1 t1 epk_a;
    p2_encoded = input_of_p2 a b n1 n2 epk_a ephemeral.public_key;
  }

  abbrev pub completed : Phase3Session → Bytes → Bytes → Phase3Session
  completed session cred shared = record session {
    session_key = peer_session_key_of cred shared session.p1_encoded session.p2_encoded;
    ephemeral = X25519.erase session.ephemeral;
    ephemeral_erased = true;
    established = true;
  }

  -- The initiator's session once P2 is in.
  abbrev pub answered_session : Phase3Session → Bytes → Bytes → Phase3Session
  answered_session session n2 epk_b = record session {
    nonce_remote = n2;
    epk_remote = epk_b;
    p2_encoded =
        input_of_p2 session.local_id session.peer_id session.nonce_local n2 session.epk_local epk_b;
  }

-- ===== src/Protocol/Handshake/Terms.antt =====
-- The messages of an undisturbed handshake and the strings under their authenticators.
use uav_omnet.Base.{ℕ, ◌+◌, [], ◌∷◌, ◌++◌, Bytes, ℤ, negsuc, take, drop}
use uav_omnet.Core.{FieldId, of_list}
use uav_omnet.Wire.{MessageType, Message, blank, mac_input, encode_timestamp}
use uav_omnet.Crypto.Label
use uav_omnet.Protocol.State.{Env}

module _ (env : Env) where
  open env use {core, suite}

  abbrev pub auth_key_of : Bytes → Bytes
  auth_key_of mk = suite.kdf mk [] Label.p2_auth [] suite.key_len

  abbrev pub input_of_m1 : ℕ → Bytes → Bytes → ℕ → Bytes → Bytes
  input_of_m1 suite_id tid n1 t1 epk_a = mac_input core suite_id MessageType.p2_m1_auth_request (
      of_list (
        (FieldId.tid, tid)
        ∷ (FieldId.nonce_1, n1)
        ∷ (FieldId.timestamp, encode_timestamp core t1)
        ∷ (FieldId.epk_a, epk_a)
        ∷ []))

  abbrev pub input_of_m2 : ℕ → Bytes → Bytes → Bytes → ℕ → Bytes → Bytes → Bytes
  input_of_m2 suite_id tid n1 n2 t2 epk_a epk_b =
      mac_input core suite_id MessageType.p2_m2_gs_response (
        of_list (
          (FieldId.tid, tid)
          ∷ (FieldId.nonce_1, n1)
          ∷ (FieldId.nonce_2, n2)
          ∷ (FieldId.timestamp, encode_timestamp core t2)
          ∷ (FieldId.epk_a, epk_a)
          ∷ (FieldId.epk_b, epk_b)
          ∷ []))

  abbrev pub message_1 : ℤ → Bytes → Bytes → Bytes → ℕ → Bytes → Message
  message_1 sender mk tid n1 t1 epk_a = record blank {
    type = MessageType.p2_m1_auth_request;
    suite_id = suite.suite_id;
    sender_id = sender;
    receiver_id = negsuc 0;
    fields = of_list (
        (FieldId.tid, tid)
        ∷ (FieldId.nonce_1, n1)
        ∷ (FieldId.timestamp, encode_timestamp core t1)
        ∷ (FieldId.epk_a, epk_a)
        ∷ (FieldId.mac_tag, suite.mac (auth_key_of mk) (input_of_m1 suite.suite_id tid n1 t1 epk_a))
        ∷ []);
  }

  abbrev pub message_2 : ℕ → ℤ → Bytes → Bytes → Bytes → Bytes → ℕ → Bytes → Bytes → Message
  message_2 suite_id receiver mk tid n1 n2 t2 epk_a epk_b = record blank {
    type = MessageType.p2_m2_gs_response;
    suite_id = suite_id;
    sender_id = negsuc 0;
    receiver_id = receiver;
    fields = of_list (
        (FieldId.nonce_2, n2)
        ∷ (FieldId.timestamp, encode_timestamp core t2)
        ∷ (FieldId.epk_b, epk_b)
        ∷ (
          FieldId.mac_tag,
          suite.mac (auth_key_of mk) (input_of_m2 suite_id tid n1 n2 t2 epk_a epk_b),
        )
        ∷ []);
  }

  abbrev pub input_of_m3 : ℕ → Bytes → Bytes → Bytes
  input_of_m3 suite_id tid transcript =
      mac_input core suite_id MessageType.p2_m3_uav_confirm (of_list ((FieldId.tid, tid) ∷ []))
      ++ transcript

  abbrev pub message_3 : ℕ → ℤ → Bytes → Bytes → Bytes → Message
  message_3 suite_id sender mk tid transcript = record blank {
    type = MessageType.p2_m3_uav_confirm;
    suite_id = suite_id;
    sender_id = sender;
    receiver_id = negsuc 0;
    fields = of_list (
        (FieldId.tid, tid)
        ∷ (FieldId.mac_tag, suite.mac (auth_key_of mk) (input_of_m3 suite_id tid transcript))
        ∷ []);
  }

  abbrev pub session_key_of : Bytes → Bytes → Bytes → Bytes
  session_key_of mk shared transcript =
      suite.kdf (mk ++ shared) transcript Label.p2_sess [] suite.key_len

  abbrev pub aead_key_of : Bytes → Bytes
  aead_key_of session_key =
      take suite.aead_key_len
        (suite.kdf session_key [] Label.p2_aead [] (suite.aead_key_len + suite.aead_nonce_len))

  abbrev pub aead_nonce_of : Bytes → Bytes
  aead_nonce_of session_key =
      drop suite.aead_key_len
        (suite.kdf session_key [] Label.p2_aead [] (suite.aead_key_len + suite.aead_nonce_len))

  abbrev pub aad_of : ℕ → Bytes → Bytes → Bytes → Bytes
  aad_of suite_id tid n1 n2 =
      mac_input core suite_id MessageType.p2_m4_gs_confirm
        (of_list ((FieldId.tid, tid) ∷ (FieldId.nonce_1, n1) ∷ (FieldId.nonce_2, n2) ∷ []))

  abbrev pub message_4 : ℕ → ℤ → Bytes → Bytes → Message
  message_4 suite_id receiver aead_nonce ciphertext = record blank {
    type = MessageType.p2_m4_gs_confirm;
    suite_id = suite_id;
    sender_id = negsuc 0;
    receiver_id = receiver;
    fields = of_list ((FieldId.aead_nonce, aead_nonce) ∷ (FieldId.cred_pkg, ciphertext) ∷ []);
  }

-- ===== src/Baseline/Handshake.antt =====
-- BaselineSigAuth.cc: the messages of an undisturbed handshake, and what they leave behind.
pub mod Request
pub mod Answer
pub mod Agreement
use uav_omnet.Base.{ℕ, some, [], ◌∷◌, ◌++◌, Bytes, ℤ, negsuc}
use uav_omnet.Core.{FieldId, of_list}
use uav_omnet.Wire.{MessageType, Message, blank, mac_input, encode_id, encode_timestamp}
use uav_omnet.Crypto.Label
use uav_omnet.Baseline.State.{BaselineEnv}

module _ {Key : Type 0} (env : BaselineEnv Key) where
  open env use {core, sig_suite, sym_suite}

  abbrev pub input_of_b1 : Bytes → Bytes → ℕ → Bytes → Bytes
  input_of_b1 sender n1 t1 epk_a = mac_input core 0 MessageType.b1_m1_auth_request (
      of_list (
        (FieldId.sender_id, sender)
        ∷ (FieldId.nonce_1, n1)
        ∷ (FieldId.timestamp, encode_timestamp core t1)
        ∷ (FieldId.epk_a, epk_a)
        ∷ []))

  abbrev pub input_of_b2 : Bytes → Bytes → Bytes → ℕ → Bytes → Bytes → Bytes
  input_of_b2 sender n1 n2 t2 epk_a epk_b = mac_input core 0 MessageType.b1_m2_gs_response (
      of_list (
        (FieldId.sender_id, sender)
        ∷ (FieldId.nonce_1, n1)
        ∷ (FieldId.nonce_2, n2)
        ∷ (FieldId.timestamp, encode_timestamp core t2)
        ∷ (FieldId.epk_a, epk_a)
        ∷ (FieldId.epk_b, epk_b)
        ∷ []))

  abbrev pub transcript_of : Bytes → Bytes → Bytes → ℕ → ℕ → Bytes → Bytes → Bytes
  transcript_of sender n1 n2 t1 t2 epk_a epk_b =
      input_of_b1 sender n1 t1 epk_a ++ input_of_b2 sender n1 n2 t2 epk_a epk_b

  abbrev pub session_key_from : Bytes → Bytes → Bytes
  session_key_from shared transcript =
      sym_suite.kdf shared transcript Label.p2_sess [] sym_suite.key_len

  abbrev pub message_1 : ℤ → Key → Bytes → ℕ → Bytes → Message
  message_1 id pair n1 t1 epk_a = record blank {
    type = MessageType.b1_m1_auth_request;
    sender_id = id;
    fields = of_list (
        (FieldId.sender_id, encode_id core id)
        ∷ (FieldId.nonce_1, n1)
        ∷ (FieldId.timestamp, encode_timestamp core t1)
        ∷ (FieldId.epk_a, epk_a)
        ∷ (
          FieldId.signature,
          sig_suite.sign (some pair) (input_of_b1 (encode_id core id) n1 t1 epk_a),
        )
        ∷ []);
  }

  abbrev pub message_2 : ℤ → Key → Bytes → Bytes → ℕ → Bytes → Bytes → Message
  message_2 id pair n1 n2 t2 epk_a epk_b = record blank {
    type = MessageType.b1_m2_gs_response;
    receiver_id = id;
    fields = of_list (
        (FieldId.nonce_2, n2)
        ∷ (FieldId.timestamp, encode_timestamp core t2)
        ∷ (FieldId.epk_b, epk_b)
        ∷ (
          FieldId.signature,
          sig_suite.sign (some pair) (input_of_b2 (encode_id core id) n1 n2 t2 epk_a epk_b),
        )
        ∷ []);
  }

  abbrev pub message_3 : ℤ → Bytes → Bytes → Message
  message_3 id key transcript = record blank {
    type = MessageType.b1_m3_uav_confirm;
    sender_id = id;
    fields = of_list ((FieldId.mac_tag, sym_suite.mac key transcript) ∷ []);
  }

  abbrev pub message_4 : ℤ → Bytes → Bytes → Message
  message_4 id key transcript = record blank {
    type = MessageType.b1_m4_gs_confirm;
    receiver_id = id;
    fields =
        of_list
          ((FieldId.mac_tag, sym_suite.mac key (transcript ++ core.from_string "confirm")) ∷ []);
  }

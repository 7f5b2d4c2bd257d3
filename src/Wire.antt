-- ===== src/Wire.antt =====
-- protocol/Wire.h and protocol/Wire.cc: the message types with their tags, the transport-agnostic
-- message, its encoding, and the small fixed-width fields.
pub mod RoundTrip
use Prim.Native.String.{String}
use uav_omnet.Base.{
  ℕ, ◌<◌, ◌≡◌, Bool, true, false, Option, none, some, Bytes, ◌==◌, if◌then◌else◌, length, ℤ, pos,
  negsuc, to_u16,
}
use uav_omnet.Core.{FieldId, FieldMap, empty_fields, set_field, DecodedFields, CoreLib}

pub data MessageType : Type 0 where
  enroll_request enroll_challenge enroll_response enroll_commit : MessageType
  p2_m1_auth_request p2_m2_gs_response p2_m3_uav_confirm p2_m4_gs_confirm : MessageType
  p3_p1_peer_request p3_p2_peer_response p3_p3_peer_complete : MessageType
  b1_m1_auth_request b1_m2_gs_response b1_m3_uav_confirm b1_m4_gs_confirm : MessageType
  ctrl_abort : MessageType

-- The numbers of the enumeration, by which two types are compared.
abbrev pub type_value : MessageType → ℕ
type_value MessageType.enroll_request = 100
type_value MessageType.enroll_challenge = 101
type_value MessageType.enroll_response = 102
type_value MessageType.enroll_commit = 103
type_value MessageType.p2_m1_auth_request = 200
type_value MessageType.p2_m2_gs_response = 201
type_value MessageType.p2_m3_uav_confirm = 202
type_value MessageType.p2_m4_gs_confirm = 203
type_value MessageType.p3_p1_peer_request = 300
type_value MessageType.p3_p2_peer_response = 301
type_value MessageType.p3_p3_peer_complete = 302
type_value MessageType.b1_m1_auth_request = 400
type_value MessageType.b1_m2_gs_response = 401
type_value MessageType.b1_m3_uav_confirm = 402
type_value MessageType.b1_m4_gs_confirm = 403
type_value MessageType.ctrl_abort = 900

unfoldable pub message_type_name : MessageType → String
message_type_name MessageType.enroll_request = "ENROLL_REQUEST"
message_type_name MessageType.enroll_challenge = "ENROLL_CHALLENGE"
message_type_name MessageType.enroll_response = "ENROLL_RESPONSE"
message_type_name MessageType.enroll_commit = "ENROLL_COMMIT"
message_type_name MessageType.p2_m1_auth_request = "P2_M1_AUTH_REQUEST"
message_type_name MessageType.p2_m2_gs_response = "P2_M2_GS_RESPONSE"
message_type_name MessageType.p2_m3_uav_confirm = "P2_M3_UAV_CONFIRM"
message_type_name MessageType.p2_m4_gs_confirm = "P2_M4_GS_CONFIRM"
message_type_name MessageType.p3_p1_peer_request = "P3_P1_PEER_REQUEST"
message_type_name MessageType.p3_p2_peer_response = "P3_P2_PEER_RESPONSE"
message_type_name MessageType.p3_p3_peer_complete = "P3_P3_PEER_COMPLETE"
message_type_name MessageType.b1_m1_auth_request = "B1_M1_AUTH_REQUEST"
message_type_name MessageType.b1_m2_gs_response = "B1_M2_GS_RESPONSE"
message_type_name MessageType.b1_m3_uav_confirm = "B1_M3_UAV_CONFIRM"
message_type_name MessageType.b1_m4_gs_confirm = "B1_M4_GS_CONFIRM"
message_type_name MessageType.ctrl_abort = "CTRL_ABORT"

-- The label of the results CSV.
unfoldable pub message_label : MessageType → String
message_label MessageType.enroll_request = "e1"
message_label MessageType.enroll_challenge = "e2"
message_label MessageType.enroll_response = "e3"
message_label MessageType.enroll_commit = "e4"
message_label MessageType.p2_m1_auth_request = "m1"
message_label MessageType.p2_m2_gs_response = "m2"
message_label MessageType.p2_m3_uav_confirm = "m3"
message_label MessageType.p2_m4_gs_confirm = "m4"
message_label MessageType.p3_p1_peer_request = "p1"
message_label MessageType.p3_p2_peer_response = "p2"
message_label MessageType.p3_p3_peer_complete = "p3"
message_label MessageType.b1_m1_auth_request = "b1"
message_label MessageType.b1_m2_gs_response = "b2"
message_label MessageType.b1_m3_uav_confirm = "b3"
message_label MessageType.b1_m4_gs_confirm = "b4"
message_label MessageType.ctrl_abort = "abort"

unfoldable pub mac_type_tag : MessageType → ℕ
mac_type_tag MessageType.enroll_request = 0x01
mac_type_tag MessageType.enroll_challenge = 0x02
mac_type_tag MessageType.enroll_response = 0x03
mac_type_tag MessageType.enroll_commit = 0x04
mac_type_tag MessageType.p2_m1_auth_request = 0x11
mac_type_tag MessageType.p2_m2_gs_response = 0x12
mac_type_tag MessageType.p2_m3_uav_confirm = 0x13
mac_type_tag MessageType.p2_m4_gs_confirm = 0x14
mac_type_tag MessageType.p3_p1_peer_request = 0x21
mac_type_tag MessageType.p3_p2_peer_response = 0x22
mac_type_tag MessageType.p3_p3_peer_complete = 0x23
mac_type_tag MessageType.b1_m1_auth_request = 0x31
mac_type_tag MessageType.b1_m2_gs_response = 0x32
mac_type_tag MessageType.b1_m3_uav_confirm = 0x33
mac_type_tag MessageType.b1_m4_gs_confirm = 0x34
mac_type_tag MessageType.ctrl_abort = 0x7f

-- `none` is the result false.
unfoldable pub message_type_from_tag : ℕ → Option MessageType
message_type_from_tag tag =
    if tag == 0x01
    then some MessageType.enroll_request
    else if tag == 0x02
    then some MessageType.enroll_challenge
    else if tag == 0x03
    then some MessageType.enroll_response
    else if tag == 0x04
    then some MessageType.enroll_commit
    else if tag == 0x11
    then some MessageType.p2_m1_auth_request
    else if tag == 0x12
    then some MessageType.p2_m2_gs_response
    else if tag == 0x13
    then some MessageType.p2_m3_uav_confirm
    else if tag == 0x14
    then some MessageType.p2_m4_gs_confirm
    else if tag == 0x21
    then some MessageType.p3_p1_peer_request
    else if tag == 0x22
    then some MessageType.p3_p2_peer_response
    else if tag == 0x23
    then some MessageType.p3_p3_peer_complete
    else if tag == 0x31
    then some MessageType.b1_m1_auth_request
    else if tag == 0x32
    then some MessageType.b1_m2_gs_response
    else if tag == 0x33
    then some MessageType.b1_m3_uav_confirm
    else if tag == 0x34
    then some MessageType.b1_m4_gs_confirm
    else none

-- `==` of two message types.
abbrev pub eq_type : MessageType → MessageType → Bool
eq_type a b = type_value a == type_value b

-- `no_reason` is the enumerator `None`.
pub data AbortReason : Type 0 where
  no_reason : AbortReason
  unknown_identity stale_timestamp replayed_nonce mac_verify_failed : AbortReason
  aead_open_failed missing_field malformed_field dh_failed : AbortReason
  fuzzy_extractor_failed no_such_peer not_authenticated unexpected_message : AbortReason

unfoldable pub abort_reason_name : AbortReason → String
abort_reason_name AbortReason.no_reason = "none"
abort_reason_name AbortReason.unknown_identity = "unknown_identity"
abort_reason_name AbortReason.stale_timestamp = "stale_timestamp"
abort_reason_name AbortReason.replayed_nonce = "replayed_nonce"
abort_reason_name AbortReason.mac_verify_failed = "mac_verify_failed"
abort_reason_name AbortReason.aead_open_failed = "aead_open_failed"
abort_reason_name AbortReason.missing_field = "missing_field"
abort_reason_name AbortReason.malformed_field = "malformed_field"
abort_reason_name AbortReason.dh_failed = "dh_failed"
abort_reason_name AbortReason.fuzzy_extractor_failed = "fuzzy_extractor_failed"
abort_reason_name AbortReason.no_such_peer = "no_such_peer"
abort_reason_name AbortReason.not_authenticated = "not_authenticated"
abort_reason_name AbortReason.unexpected_message = "unexpected_message"

pub record Message : Type 0 where
  pub type : MessageType
  pub suite_id : ℕ
  pub sender_id : ℤ
  pub receiver_id : ℤ
  pub session_id : ℕ
  pub fields : FieldMap

-- A message as it is declared, before anything is assigned.
abbrev pub blank : Message
blank = record {
  type = MessageType.ctrl_abort;
  suite_id = 0;
  sender_id = negsuc 0;
  receiver_id = negsuc 0;
  session_id = 0;
  fields = empty_fields;
}

abbrev pub has : Message → FieldId → Bool
has m id = elim (m.fields id) [ none ↦ false | some b ↦ true ]

-- `none` is the exception on an absent field.
abbrev pub get : Message → FieldId → Option Bytes
get m id = m.fields id

abbrev pub get_or_else : Message → FieldId → Bytes → Bytes
get_or_else m id fallback = elim (m.fields id) [ none ↦ fallback | some b ↦ b ]

abbrev pub set_in : Message → FieldId → Bytes → Message
set_in m id value = record m { fields = set_field id value m.fields }

module _ (c : CoreLib) where
  unfoldable pub encode : Message → Bytes
  encode m = c.encode_fields m.suite_id (mac_type_tag m.type) m.fields

  unfoldable pub wire_bytes : Message → ℕ
  unfolding encode
  wire_bytes m = length (encode m)

  unfoldable pub mac_input : ℕ → MessageType → FieldMap → Bytes
  mac_input suite_id type fields = c.encode_fields suite_id (mac_type_tag type) fields

  -- A message type is known before the message is filled in.
  unfoldable pub with_type : DecodedFields → ℤ → ℤ → Option MessageType → Option Message
  with_type decoded sender receiver none = none
  with_type decoded sender receiver (some type) = some (record {
    type = type;
    suite_id = decoded.suite_id;
    sender_id = sender;
    receiver_id = receiver;
    session_id = 0;
    fields = decoded.fields;
  })

  unfoldable pub decode_message : Bytes → ℤ → ℤ → Option Message
  unfolding with_type
  decode_message buf sender receiver = elim (c.decode_fields buf) [
    | none ↦ none
    | some decoded ↦ with_type decoded sender receiver (message_type_from_tag decoded.type_tag)
  ]

  -- The ground station is -1 and goes as 0xFFFF.
  unfoldable pub encode_id : ℤ → Bytes
  encode_id (pos n) = c.u16be (to_u16 (pos n))
  encode_id (negsuc n) = c.u16be 0xffff

  unfoldable pub decode_id : Bytes → Option ℤ
  decode_id b =
      if length b == 2
      then elim (c.read_u16be b 0) [
        | none ↦ none
        | some v ↦ if v == 0xffff then some (negsuc 0) else some (pos v)
      ]
      else none

  unfoldable pub encode_timestamp : ℕ → Bytes
  encode_timestamp ms = c.u32be ms

  unfoldable pub decode_timestamp : Bytes → Option ℕ
  decode_timestamp b = if length b == 4 then c.read_u32be b 0 else none

-- ===== src/Wire/RoundTrip.antt =====
-- Wire.cc: a message and its small fields survive the wire.
use mathlib.Core.List.{append-nil}
use mathlib.Core.Path.{subst}
use uav_omnet.Base.{
  ℕ, ◌%◌, ◌<◌, ◌≡◌, ◌≢◌, ◌↔◌, refl, some, [], Bytes, length, ℤ, pos, negsuc, to_u16, arith, ◌==◌,
  if◌then◌else◌,
}
use uav_omnet.Core.{FieldId, CoreLib, IsBigEndian, IsCanonical}
use uav_omnet.Wire.{
  MessageType, Message, mac_type_tag, message_type_from_tag, encode, decode_message, encode_id,
  decode_id, encode_timestamp, decode_timestamp,
}

pub mac_type_tag-lt : (t : MessageType) → mac_type_tag t < 256
unfolding mac_type_tag
mac_type_tag-lt t = ground arith

from_tag_sound :
    (tag : ℕ) (t : MessageType)
    → message_type_from_tag tag ≡ some t
    → (mac_type_tag t ≡ tag) × (t ≢ MessageType.ctrl_abort)
unfolding message_type_from_tag mac_type_tag
from_tag_sound tag t h = ground arith

from_tag_complete :
    (t : MessageType) → t ≢ MessageType.ctrl_abort → message_type_from_tag (mac_type_tag t) ≡ some t
unfolding message_type_from_tag mac_type_tag
from_tag_complete t h = ground arith

-- A byte reads as a message type exactly when it is that type's tag and the type is not
-- `CTRL_ABORT`; so no tag serves two steps of the protocol.
pub message_type_from_tag_iff :
    (tag : ℕ) (t : MessageType)
    → (message_type_from_tag tag ≡ some t) ↔ ((mac_type_tag t ≡ tag) × (t ≢ MessageType.ctrl_abort))
message_type_from_tag_iff tag t = (
  from_tag_sound tag t,
  λ p. subst (λ x. message_type_from_tag x ≡ some t) p.0 (from_tag_complete t p.1),
)

-- The id that a peer reads: 65535 means the ground station, and larger ids lose their upper bits.
abbrev pub wire_id : ℤ → ℤ
wire_id (pos n) = if n % 65536 == 65535 then negsuc 0 else pos (n % 65536)
wire_id (negsuc n) = negsuc 0

module _ (c : CoreLib) where
  -- A message with fields shorter than 65536 bytes is decoded as it was encoded, with the sender,
  -- the receiver and the session that the transport supplies in place of its own.
  pub decode_message-encode :
      (canonical : IsCanonical c) (m : Message) (sender receiver : ℤ)
      → m.suite_id < 256
      → m.type ≢ MessageType.ctrl_abort
      → ((id : FieldId) (b : Bytes) → m.fields id ≡ some b → length b < 65536)
      → decode_message c (encode c m) sender receiver
        ≡ some (record m { sender_id = sender; receiver_id = receiver; session_id = 0 })
  unfolding decode_message encode
  decode_message-encode canonical m sender receiver suite sendable short =
      rw
        (
          canonical.decode_fields-encode_fields m.suite_id (mac_type_tag m.type) m.fields suite
              (mac_type_tag-lt m.type) short,
          decode_message,
          from_tag_complete m.type sendable,
        )
        refl

  read_u16be-whole :
      (big_endian : IsBigEndian c) (v : ℕ) → v < 65536 → c.read_u16be (c.u16be v) 0 ≡ some v
  read_u16be-whole big_endian v h =
      subst (λ x. c.read_u16be x 0 ≡ some v) (append-nil (c.u16be v))
        (big_endian.read_u16be-u16be [] [] v h)

  -- An id reads back as itself when it is between 0 and 65534, as the ground station when it is
  -- negative, and in general as `wire_id` says.
  pub decode_id-encode_id :
      (big_endian : IsBigEndian c) (id : ℤ) → decode_id c (encode_id c id) ≡ some (wire_id id)
  unfolding decode_id encode_id to_u16
  decode_id-encode_id big_endian (pos n) = ground (
    arith,
    big_endian.length-u16be (n % 65536),
    read_u16be-whole big_endian (n % 65536) (omega arith),
  )
  decode_id-encode_id big_endian (negsuc n) =
      ground
        (arith, big_endian.length-u16be 0xffff, read_u16be-whole big_endian 0xffff (omega arith))

  -- A time in milliseconds that fits 32 bits reads back as itself.
  pub decode_timestamp-encode_timestamp :
      (big_endian : IsBigEndian c) (ms : ℕ)
      → ms < 4294967296
      → decode_timestamp c (encode_timestamp c ms) ≡ some ms
  unfolding decode_timestamp encode_timestamp
  decode_timestamp-encode_timestamp big_endian ms h =
      ground (arith, big_endian.length-u32be ms, big_endian.read_u32be-u32be ms h)

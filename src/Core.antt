-- ===== src/Core.antt =====
-- The namespace `uavauth::core` (byte strings, bit access and the canonical field encoding), which
-- the repository names and does not hold: its operations are a parameter of the models that call
-- them. The enumerators of `FieldId` are those that the program names; their wire tags belong to
-- `encode_fields`. A `FieldMap` is a `std::map<FieldId, Bytes>`, here the function that finds.
use Prim.Native.String.{String}
use uav_omnet.Base.{
  ℕ, ◌<◌, ◌≡◌, Bool, Option, none, some, List, [], ◌∷◌, ◌++◌, Bytes, ◌==◌, if◌then◌else◌, length,
}

pub data FieldId : Type 0 where
  tid tid_new nonce_1 nonce_2 timestamp epk_a epk_b mac_tag : FieldId
  cred_pkg aead_nonce sender_id receiver_id signature helper_s helper_seed : FieldId

abbrev field_index : FieldId → ℕ
field_index FieldId.tid = 0
field_index FieldId.tid_new = 1
field_index FieldId.nonce_1 = 2
field_index FieldId.nonce_2 = 3
field_index FieldId.timestamp = 4
field_index FieldId.epk_a = 5
field_index FieldId.epk_b = 6
field_index FieldId.mac_tag = 7
field_index FieldId.cred_pkg = 8
field_index FieldId.aead_nonce = 9
field_index FieldId.sender_id = 10
field_index FieldId.receiver_id = 11
field_index FieldId.signature = 12
field_index FieldId.helper_s = 13
field_index FieldId.helper_seed = 14

abbrev pub eq_field : FieldId → FieldId → Bool
eq_field a b = field_index a == field_index b

abbrev pub FieldMap : Type 0
FieldMap = FieldId → Option Bytes

abbrev pub empty_fields : FieldMap
empty_fields id = none

-- `fields[id] = value`.
abbrev pub set_field : FieldId → Bytes → FieldMap → FieldMap
set_field id value fields j = if eq_field id j then some value else fields j

-- A braced list of fields.
abbrev pub of_list : List (FieldId × Bytes) → FieldMap
of_list [] = empty_fields
of_list ((id, value) ∷ rest) = set_field id value (of_list rest)

pub record DecodedFields : Type 0 where
  pub suite_id : ℕ
  pub type_tag : ℕ
  pub fields : FieldMap

-- The operations; `none` is an exception.
pub record CoreLib : Type 0 where
  pub u16be : ℕ → Bytes
  pub u32be : ℕ → Bytes
  pub read_u16be : Bytes → ℕ → Option ℕ
  pub read_u32be : Bytes → ℕ → Option ℕ
  pub length_prefixed : Bytes → Bytes
  pub encode_fields : ℕ → ℕ → FieldMap → Bytes
  pub decode_fields : Bytes → Option DecodedFields
  pub bytes_for_bits : ℕ → ℕ
  pub get_bit : Bytes → ℕ → Bool
  pub set_bit : Bytes → ℕ → Bool → Bytes
  pub xor_bytes : Bytes → Bytes → Option Bytes
  pub from_string : String → Bytes
  pub length_prefixed_text : String → Bytes
  pub domain_hash : ℕ
  pub domain_mac : ℕ
  pub domain_kdf : ℕ

-- Fixed-width integers are big-endian, of two and four bytes, and read back at any offset; a length
-- prefix is the length in two bytes (tests/test_encoding.cc, `testByteHelpers` and
-- `testLengthPrefixAndTranscript`).
pub record IsBigEndian (c : CoreLib) : Type 0 where
  pub length-u16be : (v : ℕ) → length (c.u16be v) ≡ 2
  pub length-u32be : (v : ℕ) → length (c.u32be v) ≡ 4
  pub read_u16be-u16be :
      (pre post : Bytes) (v : ℕ)
      → v < 65536
      → c.read_u16be (pre ++ (c.u16be v ++ post)) (length pre) ≡ some v
  pub read_u32be-u32be : (v : ℕ) → v < 4294967296 → c.read_u32be (c.u32be v) 0 ≡ some v
  pub length_prefixed_lem :
      (b : Bytes) → length b < 65536 → c.length_prefixed b ≡ c.u16be (length b) ++ b

-- Decoding inverts encoding (tests/test_encoding.cc, `testRoundTrip`); each field's length is a
-- two-byte integer.
pub record IsCanonical (c : CoreLib) : Type 0 where
  pub decode_fields-encode_fields :
      (suite tag : ℕ) (fields : FieldMap)
      → suite < 256
      → tag < 256
      → ((id : FieldId) (b : Bytes) → fields id ≡ some b → length b < 65536)
      → c.decode_fields (c.encode_fields suite tag fields)
        ≡ some (record { suite_id = suite; type_tag = tag; fields = fields })

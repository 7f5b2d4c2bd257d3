-- ===== src/Tests/Encoding.antt =====
-- A concrete field encoding in place of the missing one: each field in turn, none as 0 and a value
-- as its length plus one and its bytes.
use mathlib.Core.Path.{fun_ext}
use uav_omnet.Base.{
  ℕ, zero, suc, ◌≡◌, refl, ap, ◌∙◌, Bool, true, false, Option, none, some, List, [], ◌∷◌, ◌++◌,
  ◌||◌, Bytes, if◌then◌else◌, length, take, drop, drop-append, take-append, arith,
}
use uav_omnet.Core.{FieldId, FieldMap, empty_fields, set_field, eq_field, DecodedFields}

abbrev pub all_fields : List FieldId
all_fields =
    FieldId.tid ∷ FieldId.tid_new ∷ FieldId.nonce_1 ∷ FieldId.nonce_2 ∷ FieldId.timestamp
    ∷ FieldId.epk_a ∷ FieldId.epk_b ∷ FieldId.mac_tag ∷ FieldId.cred_pkg ∷ FieldId.aead_nonce
    ∷ FieldId.sender_id ∷ FieldId.receiver_id ∷ FieldId.signature ∷ FieldId.helper_s
    ∷ FieldId.helper_seed ∷ []

unfoldable pub encode_field : Option Bytes → Bytes
encode_field none = 0 ∷ []
encode_field (some b) = suc (length b) ∷ b

unfoldable pub encode_each : List FieldId → FieldMap → Bytes
encode_each [] fields = []
encode_each (id ∷ ids) fields = encode_field (fields id) ++ encode_each ids fields

abbrev pub set_some : FieldId → Bytes → Option FieldMap → Option FieldMap
set_some id b none = none
set_some id b (some fields) = some (set_field id b fields)

unfoldable pub decode_each : List FieldId → Bytes → Option FieldMap
decode_each [] bs = some empty_fields
decode_each (id ∷ ids) [] = none
decode_each (id ∷ ids) (zero ∷ bs) = decode_each ids bs
decode_each (id ∷ ids) (suc n ∷ bs) = set_some id (take n bs) (decode_each ids (drop n bs))

unfoldable restrict : List FieldId → FieldMap → FieldMap
restrict [] fields j = none
restrict (id ∷ ids) fields j = elim (fields id) [
  | none ↦ restrict ids fields j
  | some b ↦ if eq_field id j then some b else restrict ids fields j
]

decode_each-encode_each :
    (ids : List FieldId) (fields : FieldMap)
    → decode_each ids (encode_each ids fields) ≡ some (restrict ids fields)
unfolding decode_each encode_each encode_field restrict
decode_each-encode_each [] fields = refl
decode_each-encode_each (id ∷ ids) fields =
    elim (fields id)
      as (λ o.
        decode_each (id ∷ ids) (encode_field o ++ encode_each ids fields)
        ≡ some (λ j. elim o [
          | none ↦ restrict ids fields j
          | some b ↦ if eq_field id j then some b else restrict ids fields j
        ])) [
          | none ↦ decode_each-encode_each ids fields
          | some b ↦
              rw
                (
                  take-append b (encode_each ids fields),
                  drop-append b (encode_each ids fields),
                  decode_each-encode_each ids fields,
                )
                refl
        ]

unfoldable holds : FieldId → List FieldId → Bool
holds j [] = false
holds j (id ∷ ids) = eq_field id j || holds j ids

eq_field_sound : (a b : FieldId) → eq_field a b ≡ true → a ≡ b
eq_field_sound a b h = ground arith

pick :
    (same found : Bool) (o at_j rest_j : Option Bytes)
    → (same ≡ true → o ≡ at_j)
    → rest_j ≡ (if found then at_j else none)
    → elim o as (λ x. Option Bytes) [ none ↦ rest_j | some b ↦ if same then some b else rest_j ]
      ≡ (if same || found then at_j else none)
pick same found o at_j rest_j agree rest = ground arith

restrict-at :
    (ids : List FieldId) (fields : FieldMap) (j : FieldId)
    → restrict ids fields j ≡ (if holds j ids then fields j else none)
unfolding restrict holds
restrict-at [] fields j = refl
restrict-at (id ∷ ids) fields j =
    pick (eq_field id j) (holds j ids) (fields id) (fields j) (restrict ids fields j)
      (λ h. ap fields (eq_field_sound id j h)) (restrict-at ids fields j)

holds-all : (j : FieldId) → holds j all_fields ≡ true
unfolding holds
holds-all j = ground arith

restrict-all : (fields : FieldMap) → restrict all_fields fields ≡ fields
restrict-all fields =
    fun_ext
      (λ j. restrict-at all_fields fields j ∙ ap (λ t. if t then fields j else none) (holds-all j))

unfoldable pub encode_fields : ℕ → ℕ → FieldMap → Bytes
encode_fields suite tag fields = suite ∷ tag ∷ encode_each all_fields fields

abbrev pub decoded_as : ℕ → ℕ → Option FieldMap → Option DecodedFields
decoded_as suite tag none = none
decoded_as suite tag (some fields) =
    some (record { suite_id = suite; type_tag = tag; fields = fields })

unfoldable pub decode_fields : Bytes → Option DecodedFields
decode_fields [] = none
decode_fields (suite ∷ []) = none
decode_fields (suite ∷ tag ∷ bs) = decoded_as suite tag (decode_each all_fields bs)

pub decode_fields-encode_fields :
    (suite tag : ℕ) (fields : FieldMap)
    → decode_fields (encode_fields suite tag fields)
      ≡ some (record { suite_id = suite; type_tag = tag; fields = fields })
unfolding decode_fields encode_fields
decode_fields-encode_fields suite tag fields =
    ap (decoded_as suite tag)
      (decode_each-encode_each all_fields fields ∙ ap some (restrict-all fields))

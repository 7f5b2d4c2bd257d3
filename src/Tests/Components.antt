-- ===== src/Tests/Components.antt =====
-- The replay cache, the wire formats and the generator.
use uav_omnet.Base.{
  ◌↔◌, ◌/◌, ◌*◌, ◌+◌, ℕ, ◌<◌, ◌+◌, ◌≡◌, refl, false, some, [], ◌∷◌, Bytes, length, pos, negsuc,
  arith,
}
use uav_omnet.Core.{FieldId, IsCanonical, of_list}
use uav_omnet.Wire.{MessageType, Message, blank, encode, decode_message, encode_id, decode_id}
use uav_omnet.Wire.RoundTrip.{decode_message-encode, decode_id-encode_id, wire_id}
use uav_omnet.Crypto.Drbg.Uniform.{accepted, accepted_iff}
use uav_omnet.Protocol.Replay.{contains, offer, empty_cache}
use uav_omnet.Protocol.Replay.Window.{IsCache, offers, offer_replayed}
use uav_omnet.Protocol.Credentials.{pack_credentials, unpack_credentials}
use uav_omnet.Protocol.Credentials.RoundTrip.{unpack_credentials-pack_credentials}
use uav_omnet.Tests.Toy.{core, core-IsBigEndian}
use uav_omnet.Tests.Encoding.{decode_fields-encode_fields}

empty-IsCache : IsCache (empty_cache 2)
unfolding contains
empty-IsCache = record {
  distinct_seen = tt;
  distinct = tt;
  same = λ b. refl;
  bounded = omega arith;
}

unseen : contains (1 ∷ []) (empty_cache 2).seen ≡ false
unfolding contains
unseen = refl

offer_replayed_example :
    let later = offers (offer (empty_cache 2) (1 ∷ [])).0 ((2 ∷ []) ∷ []) in
    offer later (1 ∷ []) ≡ (record later { hits = later.hits + 1 }, false)
offer_replayed_example =
    offer_replayed (empty_cache 2) (1 ∷ []) ((2 ∷ []) ∷ []) empty-IsCache unseen (omega arith)

core-IsCanonical : IsCanonical core
core-IsCanonical = record {
  decode_fields-encode_fields =
      λ suite tag fields s t f. decode_fields-encode_fields suite tag fields;
}

abbrev sent : Message
sent = record blank {
  type = MessageType.p2_m3_uav_confirm;
  suite_id = 1;
  fields = of_list ((FieldId.tid, 10 ∷ 11 ∷ []) ∷ (FieldId.mac_tag, 9 ∷ []) ∷ []);
}

short : (id : FieldId) (b : Bytes) → sent.fields id ≡ some b → length b < 65536
short id b h = ground arith

decode_message-encode_example :
    decode_message core (encode core sent) (pos 3) (negsuc 0)
    ≡ some (record sent { sender_id = pos 3; receiver_id = negsuc 0; session_id = 0 })
decode_message-encode_example =
    decode_message-encode core core-IsCanonical sent (pos 3) (negsuc 0) (omega arith) (ground arith)
      short

-- An id that does not fit comes back as another drone's.
decode_id-encode_id_example :
    decode_id core (encode_id core (pos 65537)) ≡ some (wire_id (pos 65537))
decode_id-encode_id_example = decode_id-encode_id core core-IsBigEndian (pos 65537)

unpack_credentials-pack_credentials_example :
    unpack_credentials core
      (pack_credentials core ((pos 2, 8 ∷ []) ∷ []) ((pos 2, 5 ∷ 5 ∷ []) ∷ []) (6 ∷ []))
    ≡ some
        (record { creds = (pos 2, 8 ∷ []) ∷ []; tids = (pos 2, 5 ∷ 5 ∷ []) ∷ []; tid_new = 6 ∷ [] })
unpack_credentials-pack_credentials_example =
    unpack_credentials-pack_credentials core core-IsBigEndian ((pos 2, 8 ∷ []) ∷ [])
      ((pos 2, 5 ∷ 5 ∷ []) ∷ []) (6 ∷ [])
      (2, refl, refl, omega arith, omega arith, omega arith, omega arith, tt) (omega arith)
      (omega arith)

accepted_iff_example :
    (accepted 6 20 ≡ some 2) ↔ ((2 < 6) × (j : ℕ) × (j < 0xFFFFFFFF / 6) × (20 ≡ 2 + j * 6))
accepted_iff_example = accepted_iff 6 20 2 (omega arith)

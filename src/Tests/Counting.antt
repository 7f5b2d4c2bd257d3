-- ===== src/Tests/Counting.antt =====
-- The counters of the ground station's node over a request, the same one again, and the confirmation.
use uav_omnet.Base.{
  ℕ, ◌+◌, ◌≤◌, ◌≡◌, refl, Option, none, some, List, [], ◌∷◌, to_u16, eq_ℤ, take, drop, bytes_eq,
  replicate, lookup, insert,
}
use uav_omnet.Wire.{mac_input, mac_type_tag, encode_timestamp, decode_timestamp}
use uav_omnet.Crypto.Drbg
use uav_omnet.Crypto.X25519
use uav_omnet.Protocol.Replay.{contains, evict, offer, timestamp_fresh}
use uav_omnet.Protocol.Credentials.{pack_credentials}
use uav_omnet.Protocol.GroundStation.{
  find_by_tid, pair_credential, credentials_for, tids_for, handle_m1, handle_m3,
}
use uav_omnet.Protocol.Uav.{start_phase2, handle_m2}
use uav_omnet.Nodes.Carrier.{SimMessage, carrying, uav_module}
use uav_omnet.Nodes.Station.{GroundStationNode, handle_message, receive_m1, receive_m3}
use uav_omnet.Nodes.Station.Counting.{handle_all, requests, auth_successes-bounded}
use uav_omnet.Tests.Toy.{sha3_256, sum, mac, pair_of, quad_of}
use uav_omnet.Tests.Encoding.{encode_field, encode_each, encode_fields}
use uav_omnet.Tests.World.{env, seeded}
use uav_omnet.Tests.Exchange.{m1, m3}
use uav_omnet.Tests.Network.{station_node}

abbrev events : List (SimMessage × ℕ)
events = (carrying m1, 150) ∷ (carrying m1, 160) ∷ (carrying m3, 250) ∷ []

abbrev node_of : Option GroundStationNode → GroundStationNode
node_of none = station_node
node_of (some node) = node

abbrev last : GroundStationNode
last = node_of (handle_all env events station_node)

auth_successes-bounded_example :
    (last.auth_successes ≤ last.auth_attempts) × (last.auth_attempts ≡ 0 + requests events)
unfolding handle_all handle_message receive_m1 receive_m3 uav_module start_phase2 handle_m1
    handle_m2 handle_m3 seeded Drbg.bytes Drbg.fill Drbg.refill_if_read Drbg.refill Drbg.take_some
    Drbg.counter_bytes Drbg.reseed sha3_256 sum take drop contains timestamp_fresh find_by_tid
    bytes_eq replicate mac_input mac_type_tag encode_timestamp decode_timestamp
    X25519.x25519_generate X25519.x25519_derive X25519.erase mac pair_of quad_of encode_field
    encode_each encode_fields offer evict lookup insert pack_credentials credentials_for tids_for
    pair_credential to_u16 eq_ℤ
auth_successes-bounded_example = auth_successes-bounded env events station_node last refl refl refl

-- A request that was sent again counts as a second attempt.
counted : (last.auth_successes ≡ 1) × (last.auth_attempts ≡ 2)
unfolding handle_all handle_message receive_m1 receive_m3 uav_module start_phase2 handle_m1
    handle_m2 handle_m3 seeded Drbg.bytes Drbg.fill Drbg.refill_if_read Drbg.refill Drbg.take_some
    Drbg.counter_bytes Drbg.reseed sha3_256 sum take drop contains timestamp_fresh find_by_tid
    bytes_eq replicate mac_input mac_type_tag encode_timestamp decode_timestamp
    X25519.x25519_generate X25519.x25519_derive X25519.erase mac pair_of quad_of encode_field
    encode_each encode_fields offer evict lookup insert pack_credentials credentials_for tids_for
    pair_credential to_u16 eq_ℤ
counted = (refl, refl)

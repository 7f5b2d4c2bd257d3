-- ===== src/Tests/Pairing.antt =====
-- Phase 3 between two drones with one credential.
use uav_omnet.Base.{
  ◌≡◌, bytes_eq, true, some, none, insert, ltb_ℤ, to_u16, refl, [], ◌∷◌, pos, arith, take, drop,
  replicate, lookup, eq_ℤ,
}
use uav_omnet.Crypto.Drbg
use uav_omnet.Crypto.X25519
use uav_omnet.Core.{FieldId}
use uav_omnet.Wire.{
  Message, mac_input, mac_type_tag, encode_id, decode_id, encode_timestamp, decode_timestamp,
}
use uav_omnet.Protocol.Flow.{done}
use uav_omnet.Protocol.Peer.{start_phase3, handle_p1, handle_p2, handle_p3}
use uav_omnet.Protocol.Safety.Station.{field}
use uav_omnet.Protocol.Safety.Peers.{session_with, expected_p2, handle_p2_authentic}
use uav_omnet.Tests.Encoding.{encode_field, encode_each, encode_fields}
use uav_omnet.Tests.Exchange.{message_of, state_after}
use uav_omnet.Protocol.Replay.{offer, evict, contains, timestamp_fresh}
use uav_omnet.Protocol.State.{Uav, no_phase2}
use uav_omnet.Protocol.Pairing.Agreement.{ArePaired, PeerAgreement, phase3_agrees}
use uav_omnet.Tests.Toy.{sha3_256, sum, mac, pair_of, quad_of}
use uav_omnet.Tests.World.{env, env-IsWorking, seeded, drone, drawn, after_draw}

abbrev alice : Uav
alice = record drone {
  phase2 = record no_phase2 { peer_credentials = (pos 1, 42 ∷ 43 ∷ []) ∷ [] };
  rng = seeded 3;
}

abbrev bob : Uav
bob = record drone {
  uav_id = pos 1;
  phase2 = record no_phase2 { peer_credentials = (pos 0, 42 ∷ 43 ∷ []) ∷ [] };
  rng = seeded 4;
}

paired : ArePaired env 0 1 alice bob 500 600
unfolding seeded Drbg.bytes Drbg.fill Drbg.refill_if_read Drbg.refill Drbg.take_some
    Drbg.counter_bytes Drbg.reseed sha3_256 sum take drop contains timestamp_fresh replicate lookup
    eq_ℤ
paired = record {
  alice_id = refl;
  bob_id = refl;
  a_fits = omega arith;
  cred = 42 ∷ 43 ∷ [];
  alice_cred = refl;
  bob_cred = refl;
  n1 = drawn 16 (seeded 3);
  n1_rng = after_draw 16 (seeded 3);
  draws_n1 = refl;
  unseen_n1 = refl;
  t1_fits = omega arith;
  p1_in_time = refl;
}

phase3_agrees_example : PeerAgreement env 0 1 alice bob 500 600 700 800
phase3_agrees_example = phase3_agrees env env-IsWorking 0 1 alice bob 500 600 700 800 paired

abbrev p1 : Message
p1 = message_of (start_phase3 env (pos 1) 500 alice)

abbrev alice_1 : Uav
alice_1 = state_after alice (start_phase3 env (pos 1) 500 alice)

abbrev p2 : Message
p2 = message_of (handle_p1 env p1 600 bob)

abbrev bob_1 : Uav
bob_1 = state_after bob (handle_p1 env p1 600 bob)

abbrev p3 : Message
p3 = message_of (handle_p2 env p2 700 alice_1)

abbrev alice_2 : Uav
alice_2 = state_after alice_1 (handle_p2 env p2 700 alice_1)

abbrev bob_2 : Uav
bob_2 = state_after bob_1 (handle_p3 env p3 800 bob_1)

record PeerRuns : Type 0 where
  accepts_p2 : handle_p2 env p2 700 alice_1 ≡ done (some p3) alice_2
  accepts_p3 : handle_p3 env p3 800 bob_1 ≡ done none bob_2

peer_runs : PeerRuns
unfolding start_phase3 handle_p1 handle_p2 handle_p3 seeded Drbg.bytes Drbg.fill Drbg.refill_if_read
    Drbg.refill Drbg.take_some Drbg.counter_bytes Drbg.reseed sha3_256 sum take drop contains
    timestamp_fresh replicate lookup insert eq_ℤ ltb_ℤ to_u16 bytes_eq mac_input mac_type_tag
    encode_id decode_id encode_timestamp decode_timestamp X25519.x25519_generate
    X25519.x25519_derive X25519.erase mac pair_of quad_of encode_field encode_each encode_fields
    offer evict
peer_runs = record { accepts_p2 = refl; accepts_p3 = refl }

handle_p2_authentic_example :
    (lookup p2.sender_id alice_1.peers ≡ some (session_with alice_1 p2))
    × ((session_with alice_1 p2).initiator ≡ true)
    × (env.suite.mac_verify
          (session_with alice_1 p2).auth_key
          (expected_p2 env alice_1 p2)
          (field p2 FieldId.mac_tag)
        ≡ true)
handle_p2_authentic_example =
    handle_p2_authentic env p2 700 alice_1 alice_2 (some p3) peer_runs.accepts_p2

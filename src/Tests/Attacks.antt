-- ===== src/Tests/Attacks.antt =====
-- The attacker against the drone and the ground station of `World`.
use uav_omnet.Base.{
  ◌≡◌, ◌≢◌, ◌≤◌, refl, true, not, Option, none, some, List, [], ◌∷◌, pos, bytes_eq_iff, sym, lookup,
  insert, eq_ℤ, take, drop, replicate,
}
use uav_omnet.Core.{FieldId}
use uav_omnet.Wire.{mac_input, mac_type_tag, encode_timestamp}
use uav_omnet.Crypto.X25519
use uav_omnet.Protocol.Uav.{start_phase2}
use uav_omnet.Crypto.Drbg
use uav_omnet.Crypto.Drbg.Uniform.{uniform, draw_below, accepted, limit_of, word_of}
use uav_omnet.Protocol.GroundStation.{handle_m1}
use uav_omnet.Protocol.Flow.{done}
use uav_omnet.Protocol.Safety.Station.{field}
use uav_omnet.Nodes.Carrier.{SimMessage, carrying, Module, Effect, AttackMode}
use uav_omnet.Nodes.Attacker.{
  AttackerNode, stat_of, forward_tampered, victim_field, corrupted, destination, flip_low_bit,
  inject_replay, attempt_credential_recovery,
}
use uav_omnet.Nodes.Attacker.Observe
use uav_omnet.Nodes.Attacker.Observe.{
  outcome_matches, observe, observe_m4, observe_m1, capture_m1, observe_m2, observe_m3,
}
use uav_omnet.Nodes.Attacker.Verdict.{no_stats, handle_all, verdict_fixed}
use uav_omnet.Nodes.Attacker.Tamper.{IsUnique, handle_m1_tampered}
use uav_omnet.Tests.Toy.{suite, mac, sha3_256, sum}
use uav_omnet.Tests.World.{env, seeded, station}
use uav_omnet.Tests.Network.{first_of}
use uav_omnet.Tests.Exchange.{m1, m2, station_1, runs}

suite-IsUnique : IsUnique suite
suite-IsUnique key input tag h = sym ((bytes_eq_iff (suite.mac key input) tag).0 h)

abbrev pub adversary : AttackMode → AttackerNode
adversary mode = record {
  attack_mode = mode;
  target_uav = pos 0;
  max_attempts = 1;
  expect_success = true;
  num_uavs = 2;
  rng = seeded 3;
  stats = no_stats;
  captured_m1 = [];
  genuine_m2_seen = [];
  observed_messages = 0;
  observed_m4 = 0;
  plaintext_credential_bytes = 0;
}

-- What is sent, and the node after it, where one message is sent.
abbrev sent_of : Option (AttackerNode × List Effect) → SimMessage
sent_of (some (node, Effect.transmits msg dest ∷ effects)) = msg
sent_of other = carrying m1

abbrev node_of : Option (AttackerNode × List Effect) → AttackerNode
node_of (some (node, effects)) = node
node_of none = adversary AttackMode.tamper

abbrev tampering : Option (AttackerNode × List Effect)
tampering = forward_tampered env first_of 3 (carrying m1) (adversary AttackMode.tamper)

handle_m1_tampered_example :
    handle_m1 env (sent_of tampering).payload 160 station ≢ done (some m2) station_1
unfolding forward_tampered victim_field corrupted destination flip_low_bit uniform draw_below
    accepted limit_of word_of start_phase2 seeded Drbg.bytes Drbg.fill Drbg.refill_if_read
    Drbg.refill Drbg.take_some Drbg.counter_bytes Drbg.reseed sha3_256 sum take drop replicate
    mac_input mac_type_tag encode_timestamp X25519.x25519_generate mac
handle_m1_tampered_example =
    handle_m1_tampered env suite-IsUnique first_of 3 (carrying m1) (sent_of tampering)
      (adversary AttackMode.tamper) (node_of tampering) (some Module.ground_station)
      (field m1 FieldId.mac_tag) 150 160 station station_1 station station_1 (some m2) (some m2)
      refl refl refl runs.accepts_m1 refl

abbrev verdict : Option AttackerNode → AttackerNode
verdict none = adversary AttackMode.replay
verdict (some node) = node

abbrev replaying : Option AttackerNode
replaying =
    handle_all env first_of 3 ((carrying m1, 120) ∷ (carrying m1, 160) ∷ [])
      (adversary AttackMode.replay)

verdict_fixed_example :
    (outcome_matches true
        (verdict replaying).expect_success
        (stat_of (verdict replaying).stats.replay)
      ≡ not true)
    × (outcome_matches true
          (verdict replaying).expect_success
          (stat_of (verdict replaying).stats.tamper)
        ≡ not true)
    × ((stat_of (verdict replaying).stats.gsimpersonate).attempts ≤ 1)
    × ((stat_of (verdict replaying).stats.replay).attempts ≤ 1)
unfolding handle_all Observe.handle_message observe observe_m4 observe_m1 capture_m1 observe_m2
    observe_m3 inject_replay attempt_credential_recovery lookup insert eq_ℤ start_phase2 seeded
    Drbg.bytes Drbg.fill Drbg.refill_if_read Drbg.refill Drbg.take_some Drbg.counter_bytes
    Drbg.reseed sha3_256 sum take drop replicate mac_input mac_type_tag encode_timestamp
    X25519.x25519_generate mac
verdict_fixed_example =
    verdict_fixed env first_of 3 ((carrying m1, 120) ∷ (carrying m1, 160) ∷ [])
      (adversary AttackMode.replay) (verdict replaying) refl refl

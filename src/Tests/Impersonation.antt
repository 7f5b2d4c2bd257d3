-- ===== src/Tests/Impersonation.antt =====
-- The attacker poses as the ground station towards the drone of `World`: its request, the forgery and the
-- refusal.
use uav_omnet.Base.{
  ◌≡◌, refl, true, Option, none, some, [], ◌∷◌, ℤ, pos, ℕ, lookup, insert, eq_ℤ, take, drop,
  bytes_eq, replicate, arith,
}
use mathlib.Core.Path.{subst}
use uav_omnet.Crypto.Drbg
use uav_omnet.Crypto.X25519
use uav_omnet.Wire.{mac_input, mac_type_tag, encode_timestamp, decode_timestamp, blank, Message}
use uav_omnet.Protocol.Replay.{contains, evict, offer, timestamp_fresh}
use uav_omnet.Protocol.Uav.{start_phase2, handle_m2}
use uav_omnet.Nodes.Carrier.{Module, Timer, AttackMode, uav_module}
use uav_omnet.Nodes.Medium.{transmit, route, traced, row_of, phase_of}
use uav_omnet.Nodes.Network.Impersonation.Target.{IsForged}
use uav_omnet.Nodes.Drone.{UavNode, send_to_gs, aborted_phase2}
use uav_omnet.Nodes.Drone.Events
use uav_omnet.Nodes.Drone.Events.{begin_phase2, handle_timer, receive_m2}
use uav_omnet.Nodes.Attacker.{inject_forged_m2, forge_from, forged_m2}
use uav_omnet.Nodes.Attacker.Observe
use uav_omnet.Nodes.Attacker.Observe.{
  observe, observe_m4, observe_m1, capture_m1, observe_m2, observe_m3,
}
use uav_omnet.Nodes.Network.{Event, Network, perform, take_event}
use uav_omnet.Nodes.Network.Impersonation.{IsQuiet, Unforged, here, later, impersonation_unanswered}
use uav_omnet.Tests.Toy.{sha3_256, sum, mac, quad_of}
use uav_omnet.Tests.Encoding.{encode_field, encode_each, encode_fields}
use uav_omnet.Tests.World.{env, puf, seeded}
use uav_omnet.Tests.Network.{first_of, station_node, drone_node}
use uav_omnet.Tests.Attacks.{adversary}

abbrev start : Network
start = record {
  medium = record {
    tap_enabled = true;
    attack_mode = AttackMode.impersonate;
    attacker = some Module.attacker_node;
    trace = [];
  };
  station = station_node;
  drones = (pos 0, drone_node) ∷ [];
  attacker = some (adversary AttackMode.gsimpersonate);
  pending = Event.expires (pos 0) Timer.start_phase2 ∷ [];
}

abbrev next : Network → Option Network → Network
next net none = net
next net (some net') = net'

abbrev event_of : Network → Event
event_of net = elim net.pending [ [] ↦ Event.expires (pos 0) Timer.start_phase3 | e ∷ rest ↦ e ]

-- The one pending event is taken.
abbrev after : ℕ → Network → Network
after now_ms net =
    next net
      (take_event env (λ id. puf) first_of 3 (event_of net) now_ms (record net { pending = [] }))

abbrev requested : Network
requested = after 100 start

abbrev forged : Network
forged = after 120 requested

abbrev refused : Network
refused = after 140 forged

-- The drone that a network with one drone has.
abbrev drone_of : Network → UavNode
drone_of net = elim net.drones [ [] ↦ drone_node | (id, node) ∷ rest ↦ node ]

only : (x node : UavNode) (id : ℤ) → lookup id ((pos 0, x) ∷ []) ≡ some node → x ≡ node
unfolding lookup
only x node id found = ground arith

abbrev payload_of : Event → Message
payload_of (Event.arrives d) = d.message.payload
payload_of (Event.expires id timer) = blank

start-IsQuiet : IsQuiet start
unfolding lookup eq_ℤ
start-IsQuiet = record {
  tapped = record { tapped = refl; mode = refl; registered = refl };
  expected = (refl, tt);
  poses = (adversary AttackMode.gsimpersonate, refl, (refl, refl));
  hardened = λ id node found. ground arith;
}

run : Unforged env (λ id. puf) first_of 3 start refused
unfolding take_event perform handle_timer begin_phase2 send_to_gs aborted_phase2 transmit route
    traced row_of phase_of Events.handle_message receive_m2 handle_m2 Observe.handle_message observe
    observe_m4 observe_m1 capture_m1 observe_m2 observe_m3 inject_forged_m2 forge_from forged_m2
    uav_module lookup insert eq_ℤ start_phase2 seeded Drbg.bytes Drbg.fill Drbg.refill_if_read
    Drbg.refill Drbg.take_some Drbg.counter_bytes Drbg.reseed sha3_256 sum take drop replicate
    mac_input mac_type_tag encode_timestamp X25519.x25519_generate mac decode_timestamp contains
    evict offer timestamp_fresh quad_of bytes_eq encode_fields encode_each encode_field
run =
    later {net' = refused} [] [] (event_of forged) 140
      (later {net' = forged} [] [] (event_of requested) 120
        (later {net' = requested} [] [] (event_of start) 100 here refl tt refl) refl
        (λ id node to found. absurd (ground (arith, to))) refl)
      refl
      (λ id node to found.
        subst (λ n. IsForged env n.proto (payload_of (event_of forged)))
          (only (drone_of forged) node id found) refl)
      refl

impersonation_unanswered_example : IsQuiet refused
impersonation_unanswered_example =
    impersonation_unanswered env (λ id. puf) first_of 3 start refused start-IsQuiet run

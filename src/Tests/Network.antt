-- ===== src/Tests/Network.antt =====
-- The nodes, the medium and the attacker at concrete inputs, on the drone and the ground station of
-- `World`.
use uav_omnet.Base.{refl, true, false, Option, none, some, [], ◌∷◌, pos, lookup, eq_ℤ}
use uav_omnet.Core.{FieldId, FieldMap}
use uav_omnet.Nodes.Carrier.{carrying, Module, Timer, AttackMode, uav_module}
use uav_omnet.Nodes.Medium.{WirelessMedium, transmit}
use uav_omnet.Nodes.Medium.Routes.{IsTraced, transmit_lem}
use uav_omnet.Nodes.Station.{GroundStationNode}
use uav_omnet.Nodes.Drone.{UavNode}
use uav_omnet.Nodes.Network.{Event, Network, Alone}
use uav_omnet.Nodes.Network.Authentication.{IsAuthenticated, network_authenticates}
use uav_omnet.Tests.World.{env, env-IsWorking, puf, station, drone, first_device}
use uav_omnet.Tests.Handshake.{ready}
use uav_omnet.Tests.Exchange.{m1}

-- The enumerators in their order.
abbrev pub first_of : FieldMap → Option FieldId
first_of fields = elim (fields FieldId.tid) [ some v ↦ some FieldId.tid | none ↦ none ]

abbrev open_air : WirelessMedium
open_air = record {
  tap_enabled = false;
  attack_mode = AttackMode.other;
  attacker = none;
  trace = [];
}

abbrev tapped_air : WirelessMedium
tapped_air = record {
  tap_enabled = true;
  attack_mode = AttackMode.credsniff;
  attacker = some Module.attacker_node;
  trace = [];
}

abbrev pub station_node : GroundStationNode
station_node = record {
  num_uavs = 2;
  proto = station;
  phase1 = [];
  phase2 = [];
  auth_attempts = 0;
  auth_successes = 0;
}

abbrev pub drone_node : UavNode
drone_node = record {
  uav_id = 0;
  num_uavs = 2;
  full_mesh = true;
  proto = drone;
  phase2 = record {
    success = false;
    bytes_m1 = 0;
    bytes_m2 = 0;
    bytes_m3 = 0;
    bytes_m4 = 0;
    overhead_bytes = 0;
    abort_reason = "none";
    ephemeral_erased = false;
  };
  phase3 = [];
  auth_samples = 0;
  peer_auth_samples = 0;
}

abbrev network : Network
network = record {
  medium = open_air;
  station = station_node;
  drones = (pos 0, drone_node) ∷ [];
  attacker = none;
  pending = Event.expires (pos 0) Timer.start_phase2 ∷ [];
}

network_authenticates_example :
    (end : Network) × Alone env
      (λ id. puf)
      first_of
      3
      network
      (100 ∷ 150 ∷ 200 ∷ 250 ∷ 300 ∷ [])
      end
    × IsAuthenticated env end (pos 0) first_device 0
unfolding lookup eq_ℤ uav_module
network_authenticates_example =
    network_authenticates env env-IsWorking (λ id. puf) first_of 3 network (pos 0) station_node
      drone_node first_device 100 150 200 250 300
      (record { direct = refl; unwatched = refl; station = refl; drone = refl; pending = refl })
      refl refl ready

transmit_lem_example :
    IsTraced env.core
      (carrying m1)
      Module.ground_station
      tapped_air
      (transmit env.core (carrying m1) (Module.uav (pos 0)) (some Module.ground_station) tapped_air)
transmit_lem_example =
    transmit_lem env.core (carrying m1) Module.ground_station (Module.uav (pos 0)) tapped_air refl

-- ===== src/Tests/BaselineNodes.antt =====
-- The nodes of the signature baseline around the drone and the ground station of `Baseline`.
use uav_omnet.Base.{ℕ, ◌+◌, refl, false, Option, none, some, List, [], ◌∷◌, pos, arith}
use uav_omnet.Baseline.GroundStation
use uav_omnet.Baseline.GroundStation.{construct, enroll_uav}
use uav_omnet.Baseline.Uav
use uav_omnet.Baseline.Uav.{provision_gs_public_key}
use uav_omnet.Nodes.Carrier.{Module, uav_module}
use uav_omnet.Nodes.Baseline.Station.{BaselineGroundStationNode}
use uav_omnet.Nodes.Baseline.Drone.{BaselineUavNode}
use uav_omnet.Nodes.Baseline.Enrollment.{
  enroll_from, enroll_all, IsExchanged, enroll_all-IsExchanged,
}
use uav_omnet.Nodes.Baseline.Handshake.{IsCompleted, nodes_establish}
use uav_omnet.Tests.Baseline.{env, env-IsSound, station, drone, ready}
use uav_omnet.Tests.World.{seeded}

abbrev station_node : BaselineGroundStationNode ℕ
station_node = record {
  num_uavs = 5;
  proto = station;
  records = [];
  auth_attempts = 0;
  auth_successes = 0;
}

abbrev drone_node : BaselineUavNode ℕ
drone_node = record {
  uav_id = pos 4;
  proto = drone;
  rec = record {
    success = false;
    bytes_m1 = 0;
    bytes_m2 = 0;
    bytes_m3 = 0;
    bytes_m4 = 0;
    overhead_bytes = 0;
    abort_reason = "none";
  };
  auth_samples = 0;
}

nodes_establish_example :
    IsCompleted env station_node drone_node (Module.uav (pos 4)) 100 150 200 250 300
unfolding uav_module
nodes_establish_example =
    nodes_establish env env-IsSound station_node drone_node (Module.uav (pos 4)) 100 150 200 250 300
      ready refl

-- Two drones that have no pair yet.
abbrev new_station : BaselineGroundStationNode ℕ
new_station = record station_node { num_uavs = 2; proto = GroundStation.construct 1000 (seeded 1) }

abbrev new_drone : ℕ → BaselineUavNode ℕ
new_drone i = record drone_node { uav_id = pos i; proto = Uav.construct (pos i) 1000 (seeded 2) }

abbrev exchange : Option (BaselineGroundStationNode ℕ × List (BaselineUavNode ℕ))
exchange =
    enroll_all env (some 77) (λ i. some (i + 10)) (new_drone 0 ∷ new_drone 1 ∷ []) new_station

abbrev station_of :
    Option (BaselineGroundStationNode ℕ × List (BaselineUavNode ℕ)) → BaselineGroundStationNode ℕ
station_of none = new_station
station_of (some (node, nodes)) = node

abbrev second_of :
    Option (BaselineGroundStationNode ℕ × List (BaselineUavNode ℕ)) → BaselineUavNode ℕ
second_of (some (node, first ∷ second ∷ nodes)) = second
second_of other = new_drone 1

abbrev nodes_of :
    Option (BaselineGroundStationNode ℕ × List (BaselineUavNode ℕ)) → List (BaselineUavNode ℕ)
nodes_of none = []
nodes_of (some (node, nodes)) = nodes

enroll_all-IsExchanged_example :
    IsExchanged env 1 (station_of exchange).proto (second_of exchange).proto
unfolding enroll_all enroll_from
enroll_all-IsExchanged_example =
    enroll_all-IsExchanged env (some 77) (λ i. some (i + 10)) (new_drone 0 ∷ new_drone 1 ∷ [])
      (nodes_of exchange) new_station (station_of exchange) 1 (second_of exchange) refl
      (omega arith) refl

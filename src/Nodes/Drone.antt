-- ===== src/Nodes/Drone.antt =====
-- nodes/UavNode.h and nodes/UavNode.cc: the node around the protocol object of a drone. Measurements and
-- the scalars of `finish` that copy them are left out; of the latency signals their number is kept.
pub mod Events
use Prim.Native.String.{String}
use uav_omnet.Base.{
  ℕ, zero, suc, ◌+◌, ◌-◌, Bool, true, false, Option, none, some, List, [], ◌∷◌, ◌++◌, ℤ, pos,
  StdMap, lookup, insert, length,
}
use uav_omnet.Wire.{MessageType, Message, AbortReason, abort_reason_name, wire_bytes}
use uav_omnet.Protocol.Flow.{StepResult, done, stop, fault}
use uav_omnet.Protocol.State.{Env, PufModel, DeviceState, Uav}
use uav_omnet.Protocol.Uav
use uav_omnet.Protocol.Uav.{start_phase2, handle_m2, handle_m4}
use uav_omnet.Protocol.Peer.{start_phase3, handle_p1, handle_p2, handle_p3, peer_session_key}
use uav_omnet.Nodes.Carrier.{SimMessage, carrying, Module, Timer, Effect, uav_module}
use uav_omnet.Nodes.Station.{or_blank}

pub record Phase2Record : Type 0 where
  pub success : Bool
  pub bytes_m1 : ℕ
  pub bytes_m2 : ℕ
  pub bytes_m3 : ℕ
  pub bytes_m4 : ℕ
  pub overhead_bytes : ℕ
  pub abort_reason : String
  pub ephemeral_erased : Bool

pub record Phase3Record : Type 0 where
  pub success : Bool
  pub initiator : Bool
  pub overhead_bytes : ℕ
  pub abort_reason : String

-- The drones of the network are numbered from 0. The two counters are the samples of the signals
-- `authLatency` and `peerAuthLatency`.
pub record UavNode : Type 0 where
  pub uav_id : ℕ
  pub num_uavs : ℕ
  pub full_mesh : Bool
  pub proto : Uav
  pub phase2 : Phase2Record
  pub phase3 : StdMap Phase3Record
  pub auth_samples : ℕ
  pub peer_auth_samples : ℕ

-- `phase3_[peer]`, which enters a new record where there is none.
abbrev pub peer_record : ℤ → StdMap Phase3Record → Phase3Record
peer_record peer records = elim (lookup peer records) [
  | some r ↦ r
  | none ↦ record { success = false; initiator = false; overhead_bytes = 0; abort_reason = "none" }
]

unfoldable pub set_record : ℤ → Phase3Record → UavNode → UavNode
set_record peer r node = record node { phase3 = insert peer r node.phase3 }

unfoldable pub aborted_phase2 : AbortReason → UavNode → UavNode
aborted_phase2 r node = record node {
  phase2 = record node.phase2 { abort_reason = abort_reason_name r };
}

unfoldable pub aborted_phase3 : ℤ → AbortReason → UavNode → UavNode
unfolding set_record
aborted_phase3 peer r node =
    set_record peer (record (peer_record peer node.phase3) { abort_reason = abort_reason_name r })
      node

-- `rec.success = true`, with a sample of the latency.
unfoldable pub completed_phase3 : ℤ → UavNode → UavNode
unfolding set_record
completed_phase3 peer node =
    set_record peer (record (peer_record peer node.phase3) { success = true })
      (record node { peer_auth_samples = node.peer_auth_samples + 1 })

-- `numPeerSessionKeys` of `finish`.
unfoldable pub num_peer_session_keys : UavNode → ℕ
num_peer_session_keys node = length node.phase3

unfoldable pub provision : DeviceState → UavNode → UavNode
provision state node = record node { proto = Uav.provision state node.proto }

module _ (env : Env) where
  open env use {core}

  unfoldable pub send_to_gs : Message → UavNode → UavNode × List Effect
  send_to_gs payload node = (
    record node {
      phase2 = record node.phase2 {
        overhead_bytes = node.phase2.overhead_bytes + wire_bytes core payload;
      };
    },
    Effect.transmits (carrying payload) (some Module.ground_station) ∷ [],
  )

  unfoldable pub add_overhead : ℤ → ℕ → UavNode → UavNode
  unfolding set_record
  add_overhead peer bytes node =
      let rec = peer_record peer node.phase3 in
      set_record peer (record rec { overhead_bytes = rec.overhead_bytes + bytes }) node

  unfoldable pub send_to_peer : ℤ → Message → UavNode → UavNode × List Effect
  unfolding add_overhead
  send_to_peer peer payload node = elim (uav_module node.num_uavs peer) [
    | none ↦ (node, [])
    | some found ↦ (
      add_overhead peer (wire_bytes core payload) node,
      Effect.transmits (carrying payload) (some found) ∷ [],
    )
  ]

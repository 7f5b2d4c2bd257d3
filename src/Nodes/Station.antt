-- ===== src/Nodes/Station.antt =====
-- nodes/GroundStationNode.h and nodes/GroundStationNode.cc: the node around the protocol object of the
-- ground station. Measurements and the scalars of `finish` that copy them are left out.

pub mod Counting
use Prim.Native.String.{String}
use uav_omnet.Base.{
  ℕ, zero, suc, ◌+◌, Bool, true, false, Option, none, some, List, [], ◌∷◌, ℤ, pos, StdMap, lookup,
  insert,
}
use uav_omnet.Wire.{MessageType, Message, blank, abort_reason_name, wire_bytes}
use uav_omnet.Protocol.Flow.{done, stop, fault}
use uav_omnet.Protocol.State.{Env, PufModel, GroundStation, DeviceState}
use uav_omnet.Protocol.GroundStation.{enroll, handle_m1, handle_m3}
use uav_omnet.Nodes.Carrier.{SimMessage, carrying, Effect, uav_module}

pub record GsPhase2Record : Type 0 where
  pub success : Bool
  pub bytes_m2 : ℕ
  pub bytes_m4 : ℕ
  pub abort_reason : String

pub record GroundStationNode : Type 0 where
  pub num_uavs : ℕ
  pub proto : GroundStation
  pub phase1 : StdMap Bool
  pub phase2 : StdMap GsPhase2Record
  pub auth_attempts : ℕ
  pub auth_successes : ℕ

-- `phase2_[uavId]`, which enters a new record where there is none.
abbrev pub gs_record : ℤ → StdMap GsPhase2Record → GsPhase2Record
gs_record id records = elim (lookup id records) [
  | some r ↦ r
  | none ↦ record { success = false; bytes_m2 = 0; bytes_m4 = 0; abort_reason = "none" }
]

abbrev pub or_blank : Option Message → Message
or_blank none = blank
or_blank (some m) = m

-- `send`.
abbrev pub gs_send : ℕ → Message → ℤ → Effect
gs_send num_uavs payload dest = Effect.transmits (carrying payload) (uav_module num_uavs dest)

module _ (env : Env) where
  -- The loop of `enrollAll` over the drones from `i` on, with the state that each is provisioned with;
  -- `none` is an exception.
  unfoldable pub enroll_from :
      ℕ
      → ℕ
      → (ℕ → PufModel)
      → GroundStationNode
      → Option (GroundStationNode × List (ℕ × DeviceState))
  enroll_from zero i device_puf node = some (node, [])
  enroll_from (suc left) i device_puf node = elim (enroll env (pos i) (device_puf i) node.proto) [
    | done none gs ↦ none
    | done (some (rec, state)) gs ↦
        elim (enroll_from left (i + 1) device_puf
          (record node { proto = gs; phase1 = insert (pos i) true node.phase1 })) [
            | none ↦ none
            | some (node', states) ↦ some (node', (i, state) ∷ states)
          ]
    | stop r gs ↦ none
    | fault ↦ none
  ]

  unfoldable pub enroll_all :
      (ℕ → PufModel) → GroundStationNode → Option (GroundStationNode × List (ℕ × DeviceState))
  enroll_all device_puf node = enroll_from node.num_uavs 0 device_puf node

  -- The case of M1.
  unfoldable pub receive_m1 :
      Message → ℕ → GroundStationNode → Option (GroundStationNode × List Effect)
  receive_m1 payload now_ms node =
      let id = payload.sender_id in
      let rec = gs_record id node.phase2 in
      elim (handle_m1 env payload now_ms node.proto) [
        | done reply gs ↦ some (
          record node {
            proto = gs;
            phase2 =
                insert id (record rec { bytes_m2 = wire_bytes env.core (or_blank reply) })
                  node.phase2;
            auth_attempts = node.auth_attempts + 1;
          },
          gs_send node.num_uavs (or_blank reply) id ∷ [],
        )
        | stop r gs ↦ some (
          record node {
            proto = gs;
            phase2 = insert id (record rec { abort_reason = abort_reason_name r }) node.phase2;
            auth_attempts = node.auth_attempts + 1;
          },
          [],
        )
        | fault ↦ none
      ]

  -- The case of M3.
  unfoldable pub receive_m3 :
      Message → ℕ → GroundStationNode → Option (GroundStationNode × List Effect)
  receive_m3 payload now_ms node =
      let id = payload.sender_id in
      let rec = gs_record id node.phase2 in
      elim (handle_m3 env payload now_ms node.proto) [
        | done reply gs ↦ some (
          record node {
            proto = gs;
            phase2 =
                insert id
                  (record rec { success = true; bytes_m4 = wire_bytes env.core (or_blank reply) })
                  node.phase2;
            auth_successes = node.auth_successes + 1;
          },
          gs_send node.num_uavs (or_blank reply) id ∷ [],
        )
        | stop r gs ↦ some (
          record node {
            proto = gs;
            phase2 = insert id (record rec { abort_reason = abort_reason_name r }) node.phase2;
          },
          [],
        )
        | fault ↦ none
      ]

  -- `none` is an exception that leaves the event.
  unfoldable pub handle_message :
      SimMessage → ℕ → GroundStationNode → Option (GroundStationNode × List Effect)
  handle_message msg now_ms node =
      let first = receive_m1 msg.payload now_ms node in
      let third = receive_m3 msg.payload now_ms node in
      elim msg.payload.type [
        | MessageType.p2_m1_auth_request ↦ first
        | MessageType.p2_m3_uav_confirm ↦ third
        | _ ↦ some (node, [])
      ]

-- ===== src/Nodes/Baseline/Station.antt =====
-- nodes/BaselineGroundStationNode.h and BaselineGroundStationNode.cc. Measurements and the scalars of
-- `finish` that copy them are left out.
use Prim.Native.String.{String}
use uav_omnet.Base.{
  ℕ, ◌+◌, Bool, true, false, Option, none, some, List, [], ◌∷◌, ℤ, StdMap, lookup, insert,
}
use uav_omnet.Wire.{MessageType, Message, abort_reason_name, wire_bytes}
use uav_omnet.Protocol.Flow.{done, stop, fault}
use uav_omnet.Baseline.State.{BaselineEnv, BaselineGroundStation}
use uav_omnet.Baseline.GroundStation.{handle_m1, handle_m3}
use uav_omnet.Nodes.Carrier.{SimMessage, carrying, Effect, uav_module}
use uav_omnet.Nodes.Station.{or_blank}

pub record BaselineGsRecord : Type 0 where
  pub success : Bool
  pub bytes_m2 : ℕ
  pub bytes_m4 : ℕ
  pub abort_reason : String

pub record BaselineGroundStationNode (Key : Type 0) : Type 0 where
  pub num_uavs : ℕ
  pub proto : BaselineGroundStation Key
  pub records : StdMap BaselineGsRecord
  pub auth_attempts : ℕ
  pub auth_successes : ℕ

-- `records_[uavId]`, which enters a new record where there is none.
abbrev pub baseline_record : ℤ → StdMap BaselineGsRecord → BaselineGsRecord
baseline_record id records = elim (lookup id records) [
  | some r ↦ r
  | none ↦ record { success = false; bytes_m2 = 0; bytes_m4 = 0; abort_reason = "none" }
]

module _ {Key : Type 0} (env : BaselineEnv Key) where
  open env use {core}

  -- `send`.
  abbrev gs_send : BaselineGroundStationNode Key → Message → ℤ → Effect
  gs_send node payload dest = Effect.transmits (carrying payload) (uav_module node.num_uavs dest)

  -- `none` is an exception that leaves the event.
  unfoldable pub receive_b1 :
      Message
      → ℕ
      → BaselineGroundStationNode Key
      → Option (BaselineGroundStationNode Key × List Effect)
  receive_b1 payload now_ms node =
      let id = payload.sender_id in
      let rec = baseline_record id node.records in
      elim (handle_m1 env payload now_ms node.proto) [
        | done reply gs ↦ some (
          record node {
            proto = gs;
            records =
                insert id (record rec { bytes_m2 = wire_bytes core (or_blank reply) }) node.records;
            auth_attempts = node.auth_attempts + 1;
          },
          gs_send node (or_blank reply) id ∷ [],
        )
        | stop r gs ↦ some (
          record node {
            proto = gs;
            records = insert id (record rec { abort_reason = abort_reason_name r }) node.records;
            auth_attempts = node.auth_attempts + 1;
          },
          [],
        )
        | fault ↦ none
      ]

  unfoldable pub receive_b3 :
      Message
      → ℕ
      → BaselineGroundStationNode Key
      → Option (BaselineGroundStationNode Key × List Effect)
  receive_b3 payload now_ms node =
      let id = payload.sender_id in
      let rec = baseline_record id node.records in
      elim (handle_m3 env payload now_ms node.proto) [
        | done reply gs ↦ some (
          record node {
            proto = gs;
            records =
                insert id
                  (record rec { success = true; bytes_m4 = wire_bytes core (or_blank reply) })
                  node.records;
            auth_successes = node.auth_successes + 1;
          },
          gs_send node (or_blank reply) id ∷ [],
        )
        | stop r gs ↦ some (
          record node {
            proto = gs;
            records = insert id (record rec { abort_reason = abort_reason_name r }) node.records;
          },
          [],
        )
        | fault ↦ none
      ]

  unfoldable pub station_message :
      SimMessage
      → ℕ
      → BaselineGroundStationNode Key
      → Option (BaselineGroundStationNode Key × List Effect)
  station_message msg now_ms node =
      let first = receive_b1 msg.payload now_ms node in
      let third = receive_b3 msg.payload now_ms node in
      elim msg.payload.type [
        | MessageType.b1_m1_auth_request ↦ first
        | MessageType.b1_m3_uav_confirm ↦ third
        | _ ↦ some (node, [])
      ]

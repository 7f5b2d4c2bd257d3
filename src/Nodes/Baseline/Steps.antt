-- ===== src/Nodes/Baseline/Steps.antt =====
-- nodes/BaselineUavNode.cc and nodes/BaselineGroundStationNode.cc: what each node makes of a step of its protocol
-- object.
use uav_omnet.Base.{ℕ, ◌+◌, ◌≡◌, refl, true, none, some, [], ◌∷◌, lookup-insert_self, insert, arith}
use uav_omnet.Wire.{MessageType, Message, wire_bytes}
use uav_omnet.Protocol.Flow.{done, stop, fault, StepResult}
use uav_omnet.Baseline.State.{BaselineEnv, BaselineGroundStation, BaselineUav}
use uav_omnet.Baseline.GroundStation.{handle_m1, handle_m3}
use uav_omnet.Baseline.Uav.{start_phase2, handle_m2, handle_m4}
use uav_omnet.Nodes.Carrier.{carrying, Module, Effect, uav_module}
use uav_omnet.Nodes.Baseline.Station.{
  BaselineGroundStationNode, baseline_record, receive_b1, receive_b3, station_message,
}
use uav_omnet.Nodes.Baseline.Drone.{
  BaselineUavNode, begin_baseline, receive_b2, receive_b4, uav_message, uav_send,
}

module _ {Key : Type 0} (env : BaselineEnv Key) where
  -- A step that replies, if it does, with a message of this type.
  abbrev pub Answers : {S : Type 0} → MessageType → StepResult S → Type 0
  Answers type (done none s) = Unit
  Answers type (done (some m) s) = m.type ≡ type
  Answers type (stop r s) = Unit
  Answers type fault = Unit

  -- A step of a drone that replies, if it does, with a message of its own of this type.
  abbrev pub Replies : MessageType → BaselineUav Key → StepResult (BaselineUav Key) → Type 0
  Replies type uav (done none uav') = Unit
  Replies type uav (done (some m) uav') =
      (m.type ≡ type) × (m.sender_id ≡ uav.uav_id) × (uav'.uav_id ≡ uav.uav_id)
  Replies type uav (stop r uav') = Unit
  Replies type uav fault = Unit

  pub start_phase2-Replies :
      (now_ms : ℕ) (uav : BaselineUav Key)
      → Replies MessageType.b1_m1_auth_request uav (start_phase2 env now_ms uav)
  unfolding start_phase2
  start_phase2-Replies now_ms uav = ground arith

  pub handle_m2-Replies :
      (b2 : Message) (now_ms : ℕ) (uav : BaselineUav Key)
      → Replies MessageType.b1_m3_uav_confirm uav (handle_m2 env b2 now_ms uav)
  unfolding handle_m2
  handle_m2-Replies b2 now_ms uav = ground arith

  pub handle_m1-Answers :
      (b1 : Message) (now_ms : ℕ) (gs : BaselineGroundStation Key)
      → Answers MessageType.b1_m2_gs_response (handle_m1 env b1 now_ms gs)
  unfolding handle_m1
  handle_m1-Answers b1 now_ms gs = ground arith

  pub handle_m3-Answers :
      (b3 : Message) (now_ms : ℕ) (gs : BaselineGroundStation Key)
      → Answers MessageType.b1_m4_gs_confirm (handle_m3 env b3 now_ms gs)
  unfolding handle_m3
  handle_m3-Answers b3 now_ms gs = ground arith

  -- The ground station's node on a request and on a confirmation of a drone of the network.
  pub station_answers_b1 :
      (b1 b2 : Message) (now_ms : ℕ) (s : BaselineGroundStationNode Key)
      (gs : BaselineGroundStation Key) (dest : Module)
      → handle_m1 env b1 now_ms s.proto ≡ done (some b2) gs
      → b1.type ≡ MessageType.b1_m1_auth_request
      → uav_module s.num_uavs b1.sender_id ≡ some dest
      → (s' : BaselineGroundStationNode Key) × (s'.proto ≡ gs)
        × (s'.num_uavs ≡ s.num_uavs)
        × (s'.auth_successes ≡ s.auth_successes)
        × (s'.auth_attempts ≡ s.auth_attempts + 1)
        × (station_message env (carrying b1) now_ms s
            ≡ some (s', Effect.transmits (carrying b2) (some dest) ∷ []))
  unfolding station_message receive_b1
  station_answers_b1 b1 b2 now_ms s gs dest e type there = (
    record s {
      proto = gs;
      records =
          insert b1.sender_id
            (record (baseline_record b1.sender_id s.records) { bytes_m2 = wire_bytes env.core b2 })
            s.records;
      auth_attempts = s.auth_attempts + 1;
    },
    refl,
    refl,
    refl,
    refl,
    ground (arith, e, type, there),
  )

  pub station_answers_b3 :
      (b3 b4 : Message) (now_ms : ℕ) (s : BaselineGroundStationNode Key)
      (gs : BaselineGroundStation Key) (dest : Module)
      → handle_m3 env b3 now_ms s.proto ≡ done (some b4) gs
      → b3.type ≡ MessageType.b1_m3_uav_confirm
      → uav_module s.num_uavs b3.sender_id ≡ some dest
      → (s' : BaselineGroundStationNode Key) × (s'.proto ≡ gs)
        × (s'.auth_successes ≡ s.auth_successes + 1)
        × (s'.auth_attempts ≡ s.auth_attempts)
        × ((baseline_record b3.sender_id s'.records).success ≡ true)
        × (station_message env (carrying b3) now_ms s
            ≡ some (s', Effect.transmits (carrying b4) (some dest) ∷ []))
  unfolding station_message receive_b3
  station_answers_b3 b3 b4 now_ms s gs dest e type there =
      let won = record (baseline_record b3.sender_id s.records) {
        success = true;
        bytes_m4 = wire_bytes env.core b4;
      } in
      (
        record s {
          proto = gs;
          records = insert b3.sender_id won s.records;
          auth_successes = s.auth_successes + 1;
        },
        refl,
        refl,
        refl,
        ground (arith, lookup-insert_self b3.sender_id won s.records),
        ground (arith, e, type, there),
      )

  pub drone_begins :
      (b1 : Message) (now_ms : ℕ) (d : BaselineUavNode Key) (uav : BaselineUav Key)
      → start_phase2 env now_ms d.proto ≡ done (some b1) uav
      → (d' : BaselineUavNode Key) × (d'.proto ≡ uav)
        × (begin_baseline env now_ms d
            ≡ some (d', Effect.transmits (carrying b1) (some Module.ground_station) ∷ []))
  unfolding begin_baseline uav_send
  drone_begins b1 now_ms d uav e = (
    (uav_send env b1
        (record d { proto = uav; rec = record d.rec { bytes_m1 = wire_bytes env.core b1 } })).0,
    refl,
    ground (arith, e),
  )

  pub drone_answers_b2 :
      (b2 b3 : Message) (now_ms : ℕ) (d : BaselineUavNode Key) (uav : BaselineUav Key)
      → handle_m2 env b2 now_ms d.proto ≡ done (some b3) uav
      → b2.type ≡ MessageType.b1_m2_gs_response
      → (d' : BaselineUavNode Key) × (d'.proto ≡ uav)
        × (uav_message env (carrying b2) now_ms d
            ≡ some (d', Effect.transmits (carrying b3) (some Module.ground_station) ∷ []))
  unfolding uav_message receive_b2 uav_send
  drone_answers_b2 b2 b3 now_ms d uav e type =
      let bytes = wire_bytes env.core b2 in
      let counted = record d.rec {
        bytes_m2 = bytes;
        overhead_bytes = d.rec.overhead_bytes + bytes;
        bytes_m3 = wire_bytes env.core b3;
      } in
      ((uav_send env b3 (record d { proto = uav; rec = counted })).0, refl, ground (arith, e, type))

  pub drone_ends :
      (b4 : Message) (now_ms : ℕ) (d : BaselineUavNode Key) (uav : BaselineUav Key)
      → handle_m4 env b4 now_ms d.proto ≡ done none uav
      → b4.type ≡ MessageType.b1_m4_gs_confirm
      → (d' : BaselineUavNode Key) × (d'.proto ≡ uav)
        × (d'.rec.success ≡ true)
        × (uav_message env (carrying b4) now_ms d ≡ some (d', []))
  unfolding uav_message receive_b4
  drone_ends b4 now_ms d uav e type =
      let bytes = wire_bytes env.core b4 in
      (
        record d {
          proto = uav;
          rec = record d.rec {
            bytes_m4 = bytes;
            overhead_bytes = d.rec.overhead_bytes + bytes;
            success = true;
          };
          auth_samples = d.auth_samples + 1;
        },
        refl,
        refl,
        ground (arith, e, type),
      )

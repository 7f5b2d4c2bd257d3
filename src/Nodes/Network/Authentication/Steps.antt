-- ===== src/Nodes/Network/Authentication/Steps.antt =====
-- nodes/UavNode.cc and nodes/GroundStationNode.cc: what each node makes of a step of Phase 2 of its protocol
-- object.
use uav_omnet.Base.{ℕ, ◌+◌, ◌≡◌, refl, true, none, some, [], ◌∷◌, insert, lookup-insert_self, arith}
use uav_omnet.Wire.{MessageType, Message, wire_bytes}
use uav_omnet.Protocol.Flow.{done}
use uav_omnet.Protocol.State.{Env, PufModel, GroundStation, Uav}
use uav_omnet.Protocol.Uav.{start_phase2, handle_m2, handle_m4}
use uav_omnet.Protocol.GroundStation.{handle_m1, handle_m3}
use uav_omnet.Nodes.Carrier.{carrying, Module, Timer, Effect, uav_module}
use uav_omnet.Nodes.Station
use uav_omnet.Nodes.Station.{GroundStationNode, gs_record, receive_m1, receive_m3}
use uav_omnet.Nodes.Drone.{UavNode, send_to_gs}
use uav_omnet.Nodes.Drone.Events
use uav_omnet.Nodes.Drone.Events.{begin_phase2, handle_timer, receive_m2, receive_m4}

module _ (env : Env) where
  -- What each node makes of the step of its protocol object.
  pub begins :
      (puf : PufModel) (now_ms : ℕ) (d : UavNode) (m1 : Message) (uav : Uav)
      → start_phase2 env puf now_ms d.proto ≡ done (some m1) uav
      → (d' : UavNode) × (d'.proto ≡ uav)
        × (d'.num_uavs ≡ d.num_uavs)
        × (handle_timer env puf Timer.start_phase2 now_ms d
            ≡ some (d', Effect.transmits (carrying m1) (some Module.ground_station) ∷ []))
  unfolding handle_timer begin_phase2 send_to_gs
  begins puf now_ms d m1 uav e = (
    (send_to_gs env m1 (record d {
      proto = uav;
      phase2 = record d.phase2 { bytes_m1 = wire_bytes env.core m1 };
    })).0,
    refl,
    refl,
    ground (arith, e),
  )

  pub answers_m1 :
      (m1 m2 : Message) (now_ms : ℕ) (s : GroundStationNode) (gs : GroundStation) (dest : Module)
      → handle_m1 env m1 now_ms s.proto ≡ done (some m2) gs
      → m1.type ≡ MessageType.p2_m1_auth_request
      → uav_module s.num_uavs m1.sender_id ≡ some dest
      → (s' : GroundStationNode) × (s'.proto ≡ gs)
        × (s'.num_uavs ≡ s.num_uavs)
        × (s'.auth_successes ≡ s.auth_successes)
        × (Station.handle_message env (carrying m1) now_ms s
            ≡ some (s', Effect.transmits (carrying m2) (some dest) ∷ []))
  unfolding Station.handle_message receive_m1
  answers_m1 m1 m2 now_ms s gs dest e type there =
      let rec = gs_record m1.sender_id s.phase2 in
      (
        record s {
          proto = gs;
          phase2 = insert m1.sender_id (record rec { bytes_m2 = wire_bytes env.core m2 }) s.phase2;
          auth_attempts = s.auth_attempts + 1;
        },
        refl,
        refl,
        refl,
        ground (arith, e, type, there),
      )

  pub answers_m2 :
      (m2 m3 : Message) (now_ms : ℕ) (d : UavNode) (uav : Uav)
      → handle_m2 env m2 now_ms d.proto ≡ done (some m3) uav
      → m2.type ≡ MessageType.p2_m2_gs_response
      → (d' : UavNode) × (d'.proto ≡ uav)
        × (Events.handle_message env (carrying m2) now_ms d
            ≡ some (d', Effect.transmits (carrying m3) (some Module.ground_station) ∷ []))
  unfolding Events.handle_message receive_m2 send_to_gs
  answers_m2 m2 m3 now_ms d uav e type =
      let bytes = wire_bytes env.core m2 in
      let counted = record d.phase2 {
        bytes_m2 = bytes;
        overhead_bytes = d.phase2.overhead_bytes + bytes;
        bytes_m3 = wire_bytes env.core m3;
      } in
      (
        (send_to_gs env m3 (record d { proto = uav; phase2 = counted })).0,
        refl,
        ground (arith, e, type),
      )

  pub answers_m3 :
      (m3 m4 : Message) (now_ms : ℕ) (s : GroundStationNode) (gs : GroundStation) (dest : Module)
      → handle_m3 env m3 now_ms s.proto ≡ done (some m4) gs
      → m3.type ≡ MessageType.p2_m3_uav_confirm
      → uav_module s.num_uavs m3.sender_id ≡ some dest
      → (s' : GroundStationNode) × (s'.proto ≡ gs)
        × (s'.auth_successes ≡ s.auth_successes + 1)
        × ((gs_record m3.sender_id s'.phase2).success ≡ true)
        × (Station.handle_message env (carrying m3) now_ms s
            ≡ some (s', Effect.transmits (carrying m4) (some dest) ∷ []))
  unfolding Station.handle_message receive_m3
  answers_m3 m3 m4 now_ms s gs dest e type there =
      let rec = gs_record m3.sender_id s.phase2 in
      let won = record rec { success = true; bytes_m4 = wire_bytes env.core m4 } in
      (
        record s {
          proto = gs;
          phase2 = insert m3.sender_id won s.phase2;
          auth_successes = s.auth_successes + 1;
        },
        refl,
        refl,
        ground (arith, lookup-insert_self m3.sender_id won s.phase2),
        ground (arith, e, type, there),
      )

  pub accepts_m4 :
      (m4 : Message) (now_ms : ℕ) (d : UavNode) (uav : Uav)
      → handle_m4 env m4 now_ms d.proto ≡ done none uav
      → m4.type ≡ MessageType.p2_m4_gs_confirm
      → (d' : UavNode) × (d'.proto ≡ uav)
        × (d'.phase2.success ≡ true)
        × (Events.handle_message env (carrying m4) now_ms d
            ≡ some (d', Effect.schedules Timer.start_phase3 ∷ []))
  unfolding Events.handle_message receive_m4
  accepts_m4 m4 now_ms d uav e type =
      let bytes = wire_bytes env.core m4 in
      (
        record d {
          proto = uav;
          phase2 = record d.phase2 {
            bytes_m4 = bytes;
            overhead_bytes = d.phase2.overhead_bytes + bytes;
            success = true;
            ephemeral_erased = uav.phase2.ephemeral_erased;
          };
          auth_samples = d.auth_samples + 1;
        },
        refl,
        refl,
        ground (arith, e, type),
      )

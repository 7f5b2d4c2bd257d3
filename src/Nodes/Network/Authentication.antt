-- ===== src/Nodes/Network/Authentication.antt =====
-- nodes/*.cc without an attacker: a drone's Phase 2 through the network, from its self-message to the
-- credentials.
pub mod Steps
use mathlib.Core.Path.{subst}
use uav_omnet.Base.{
  List, ℕ, ◌+◌, ◌≡◌, refl, sym, ap, ◌∙◌, true, Option, none, some, [], ◌∷◌, ℤ, insert,
  lookup-insert_self, arith,
}
use uav_omnet.Core.{FieldMap, FieldId}
use uav_omnet.Wire.{MessageType, Message, wire_bytes}
use uav_omnet.Protocol.Flow.{done}
use uav_omnet.Protocol.State.{Env, PufModel, DeviceRecord, GroundStation, Uav}
use uav_omnet.Protocol.Uav.{start_phase2, handle_m2, handle_m4}
use uav_omnet.Protocol.GroundStation.{handle_m1, handle_m3, session_key_for}
use uav_omnet.Protocol.Handshake.Agreement.{IsWorking, IsReady, Agreement, phase2_agrees}
use uav_omnet.Protocol.Safety.Replies.{
  Replies, Answers, start_phase2-Replies, handle_m2-Replies, handle_m1-Answers, handle_m3-Answers,
}
use uav_omnet.Nodes.Carrier.{carrying, Module, Timer, Effect, uav_module}
use uav_omnet.Nodes.Station
use uav_omnet.Nodes.Station.{GroundStationNode, gs_record, receive_m1, receive_m3}
use uav_omnet.Nodes.Drone.{UavNode, send_to_gs}
use uav_omnet.Nodes.Drone.Events
use uav_omnet.Nodes.Drone.Events.{begin_phase2, handle_timer, receive_m2, receive_m4}
use uav_omnet.Nodes.Network.{Event, Network, Alone, here, taken}
use uav_omnet.Nodes.Network.Direct.{
  IsStage, arrival, drone-Advances, station-Advances, drone_waits, timer_taken, drone_taken,
  station_taken,
}
use Steps.{begins, answers_m1, answers_m2, answers_m3, accepts_m4}

-- What the network of a drone and the ground station has come to once both have authenticated each other.
pub record IsAuthenticated (env : Env) (net : Network) (id : ℤ) (rec : DeviceRecord) (before : ℕ)
    : Type 0 where
  pub station : GroundStationNode
  pub drone : UavNode
  pub stage : IsStage net id station drone (Event.expires id Timer.start_phase3 ∷ [])
  pub counted : station.auth_successes ≡ before + 1
  pub recorded : (gs_record id station.phase2).success ≡ true
  pub succeeded : drone.phase2.success ≡ true
  pub established : drone.proto.phase2.established ≡ true
  pub one_key : session_key_for rec.uav_id station.proto ≡ some drone.proto.phase2.session_key

module _ (env : Env) (puf : ℤ → PufModel) (first_field : FieldMap → Option FieldId) (turns : ℕ)
    (net : Network) (id : ℤ) (s : GroundStationNode) (d : UavNode) (rec : DeviceRecord)
    (t1 t2 t3 t4 t5 : ℕ) (stage : IsStage net id s d (Event.expires id Timer.start_phase2 ∷ []))
    (there : uav_module s.num_uavs id ≡ some (Module.uav id)) (named : d.proto.uav_id ≡ id)
    (a : Agreement env (puf id) d.proto s.proto rec t1 t2 t3 t4 t5) where
  -- Between M2 and M3.
  record IsHalfway (net2 : Network) : Type 0 where
    s1 : GroundStationNode
    d1 : UavNode
    stage1 : IsStage net2 id s1 d1 (arrival (carrying a.m2) (Module.uav id) ∷ [])
    drone1 : d1.proto ≡ a.uav1
    station1 : s1.proto ≡ a.gs1
    size : s1.num_uavs ≡ s.num_uavs
    counted1 : s1.auth_successes ≡ s.auth_successes
    named1 : a.uav1.uav_id ≡ id

  reaches-IsHalfway :
      (net2 : Network) × ((times : List ℕ) (end : Network)
        → Alone env puf first_field turns net2 times end
        → Alone env puf first_field turns net (t1 ∷ t2 ∷ times) end)
      × IsHalfway net2
  reaches-IsHalfway =
      let (type1, from1, legacy1, id1) : Replies MessageType.p2_m1_auth_request d.proto
          (done (some a.m1) a.uav1) =
        subst (Replies MessageType.p2_m1_auth_request d.proto) a.sends_m1
          (start_phase2-Replies env (puf id) t1 d.proto) in
      let (d1, p1, n1, run1) = begins env (puf id) t1 d a.m1 a.uav1 a.sends_m1 in
      let (net1, one1, step1, stage1) =
        drone-Advances env puf first_field turns net id s d d1 (Event.expires id Timer.start_phase2)
          t1 (carrying a.m1) Module.ground_station stage
          (timer_taken env puf first_field turns (record net { pending = [] }) id d
            Timer.start_phase2 t1 _ stage.drone run1) in
      let (s1, q1, k1, c1, run2) =
        answers_m1 env a.m1 a.m2 t2 s a.gs1 (Module.uav id) a.sends_m2 type1
          (ap (uav_module s.num_uavs) (from1 ∙ named) ∙ there) in
      let (net2, one2, step2, stage2) =
        station-Advances env puf first_field turns net1 id s s1 d1
          (arrival (carrying a.m1) Module.ground_station) t2 (carrying a.m2) (Module.uav id) stage1
          (station_taken env puf first_field turns (record net1 { pending = [] }) s (carrying a.m1)
            t2 _ stage1.station run2) in
      (
        net2,
        λ times end more. taken {next = net1} (Event.expires id Timer.start_phase2) t1 one1 step1 (
            taken {next = net2} (arrival (carrying a.m1) Module.ground_station) t2 one2 step2 more),
        record {
          s1 = s1;
          d1 = d1;
          stage1 = stage2;
          drone1 = p1;
          station1 = q1;
          size = k1;
          counted1 = c1;
          named1 = id1 ∙ named;
        },
      )

  module _ (net2 : Network) (half : IsHalfway net2) where
    open half use {s1, d1, stage1, drone1, station1, size, counted1, named1}

    finishes :
        (end : Network) × Alone env puf first_field turns net2 (t3 ∷ t4 ∷ t5 ∷ []) end
        × IsAuthenticated env end id rec s.auth_successes
    finishes =
        let (type3, from3, legacy3, id3) : Replies MessageType.p2_m3_uav_confirm a.uav1
            (done (some a.m3) a.uav2) =
          subst (Replies MessageType.p2_m3_uav_confirm a.uav1) a.sends_m3
            (handle_m2-Replies env a.m2 t3 a.uav1) in
        let type2 : a.m2.type ≡ MessageType.p2_m2_gs_response =
          subst (Answers MessageType.p2_m2_gs_response) a.sends_m2
            (handle_m1-Answers env a.m1 t2 s.proto) in
        let type4 : a.m4.type ≡ MessageType.p2_m4_gs_confirm =
          subst (Answers MessageType.p2_m4_gs_confirm) a.sends_m4
            (handle_m3-Answers env a.m3 t4 a.gs1) in
        let sender3 : a.m3.sender_id ≡ id = from3 ∙ named1 in
        let (d2, p2, run3) =
          answers_m2 env a.m2 a.m3 t3 d1 a.uav2 (ap (handle_m2 env a.m2 t3) drone1 ∙ a.sends_m3)
            type2 in
        let (net3, one3, step3, stage3) =
          drone-Advances env puf first_field turns net2 id s1 d1 d2
            (arrival (carrying a.m2) (Module.uav id)) t3 (carrying a.m3) Module.ground_station
            stage1
            (drone_taken env puf first_field turns (record net2 { pending = [] }) id d1
              (carrying a.m2) t3 _ stage1.drone run3) in
        let (s2, q2, c2, recorded, run4) =
          answers_m3 env a.m3 a.m4 t4 s1 a.gs2 (Module.uav id)
            (ap (handle_m3 env a.m3 t4) station1 ∙ a.sends_m4) type3
            (ap (uav_module s1.num_uavs) sender3 ∙ (ap (λ n. uav_module n id) size ∙ there)) in
        let (net4, one4, step4, stage4) =
          station-Advances env puf first_field turns net3 id s1 s2 d2
            (arrival (carrying a.m3) Module.ground_station) t4 (carrying a.m4) (Module.uav id)
            stage3
            (station_taken env puf first_field turns (record net3 { pending = [] }) s1
              (carrying a.m3) t4 _ stage3.station run4) in
        let (d3, p3, won, run5) =
          accepts_m4 env a.m4 t5 d2 a.uav3 (ap (handle_m4 env a.m4 t5) p2 ∙ a.accepts_m4) type4 in
        let (end, one5, step5, stage5) =
          drone_waits env puf first_field turns net4 id s2 d2 d3
            (arrival (carrying a.m4) (Module.uav id)) t5 Timer.start_phase3 stage4
            (drone_taken env puf first_field turns (record net4 { pending = [] }) id d2
              (carrying a.m4) t5 _ stage4.drone run5) in
        (
          end,
          taken {next = net3} (arrival (carrying a.m2) (Module.uav id)) t3 one3 step3 (
              taken {next = net4} (arrival (carrying a.m3) Module.ground_station) t4 one4 step4
                (taken {next = end} (arrival (carrying a.m4) (Module.uav id)) t5 one5 step5 here)),
          record {
            station = s2;
            drone = d3;
            stage = stage5;
            counted = c2 ∙ ap (λ n. n + 1) counted1;
            recorded = subst (λ i. (gs_record i s2.phase2).success ≡ true) sender3 recorded;
            succeeded = won;
            established = ap (λ u. u.phase2.established) p3 ∙ a.established;
            one_key =
                ap (session_key_for rec.uav_id) q2
                ∙ (a.one_key ∙ ap (λ u. some u.phase2.session_key) (sym p3));
          },
        )

-- In a network whose medium is not tapped, where the drone's self-message is all that is pending, a drone
-- and a ground station that are ready for Phase 2 (`IsReady`) authenticate each other. Five events at the
-- times t1 to t5, each the only one pending when it is taken, end where the start of the drone's Phase 3 is
-- all that is pending, with a success on record at both nodes and one session key.
pub network_authenticates :
    (env : Env) (works : IsWorking env) (puf : ℤ → PufModel)
    (first_field : FieldMap → Option FieldId) (turns : ℕ) (net : Network) (id : ℤ)
    (s : GroundStationNode) (d : UavNode) (rec : DeviceRecord) (t1 t2 t3 t4 t5 : ℕ)
    → IsStage net id s d (Event.expires id Timer.start_phase2 ∷ [])
    → uav_module s.num_uavs id ≡ some (Module.uav id)
    → d.proto.uav_id ≡ id
    → IsReady env (puf id) d.proto s.proto rec t1 t2 t3
    → (end : Network) × Alone env puf first_field turns net (t1 ∷ t2 ∷ t3 ∷ t4 ∷ t5 ∷ []) end
      × IsAuthenticated env end id rec s.auth_successes
network_authenticates env works puf first_field turns net id s d rec t1 t2 t3 t4 t5 stage there
      named ready =
    let a = phase2_agrees env works (puf id) d.proto s.proto rec t1 t2 t3 t4 t5 ready in
    let (net2, before, half) =
      reaches-IsHalfway env puf first_field turns net id s d rec t1 t2 t3 t4 t5 stage there named
        a in
    let (end, after, authenticated) =
      finishes env puf first_field turns net id s d rec t1 t2 t3 t4 t5 stage there named a net2
        half in
    (end, before (t3 ∷ t4 ∷ t5 ∷ []) end after, authenticated)

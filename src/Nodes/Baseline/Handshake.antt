-- ===== src/Nodes/Baseline/Handshake.antt =====
-- nodes/BaselineUavNode.cc and nodes/BaselineGroundStationNode.cc: the signed handshake through the nodes.
use mathlib.Core.Path.{subst}
use uav_omnet.Base.{ℕ, ◌+◌, ◌≡◌, sym, ap, ◌∙◌, true, some, [], ◌∷◌, lookup}
use uav_omnet.Wire.{MessageType, Message}
use uav_omnet.Protocol.Flow.{done}
use uav_omnet.Baseline.State.{BaselineEnv, BaselineGsSession}
use uav_omnet.Baseline.GroundStation.{handle_m3}
use uav_omnet.Baseline.Uav.{handle_m2, handle_m4}
use uav_omnet.Baseline.Handshake.Agreement.{IsSound, IsProvisioned, handshake_establishes}
use uav_omnet.Nodes.Carrier.{carrying, Module, Effect, uav_module}
use uav_omnet.Nodes.Baseline.Steps.{
  Answers, Replies, start_phase2-Replies, handle_m2-Replies, handle_m1-Answers, handle_m3-Answers,
  station_answers_b1, station_answers_b3, drone_begins, drone_answers_b2, drone_ends,
}
use uav_omnet.Nodes.Baseline.Station.{BaselineGroundStationNode, baseline_record, station_message}
use uav_omnet.Nodes.Baseline.Drone.{BaselineUavNode, begin_baseline, uav_message}

module _ {Key : Type 0} (env : BaselineEnv Key) where
  -- The five events, each on what the one before it sent and left, and what both nodes then have on
  -- record.
  pub record IsCompleted (s : BaselineGroundStationNode Key) (d : BaselineUavNode Key)
      (dest : Module) (t1 t2 t3 t4 t5 : ℕ) : Type 0 where
    pub b1 : Message
    pub b2 : Message
    pub b3 : Message
    pub b4 : Message
    pub d1 : BaselineUavNode Key
    pub d2 : BaselineUavNode Key
    pub d3 : BaselineUavNode Key
    pub s1 : BaselineGroundStationNode Key
    pub s2 : BaselineGroundStationNode Key
    pub session : BaselineGsSession
    pub begins :
        begin_baseline env t1 d
        ≡ some (d1, Effect.transmits (carrying b1) (some Module.ground_station) ∷ [])
    pub answers_b1 :
        station_message env (carrying b1) t2 s
        ≡ some (s1, Effect.transmits (carrying b2) (some dest) ∷ [])
    pub answers_b2 :
        uav_message env (carrying b2) t3 d1
        ≡ some (d2, Effect.transmits (carrying b3) (some Module.ground_station) ∷ [])
    pub answers_b3 :
        station_message env (carrying b3) t4 s1
        ≡ some (s2, Effect.transmits (carrying b4) (some dest) ∷ [])
    pub ends : uav_message env (carrying b4) t5 d2 ≡ some (d3, [])
    pub drone_success : d3.rec.success ≡ true
    pub station_success : (baseline_record d.proto.uav_id s2.records).success ≡ true
    pub counted : s2.auth_successes ≡ s.auth_successes + 1
    pub attempted : s2.auth_attempts ≡ s.auth_attempts + 1
    pub in_session : lookup d.proto.uav_id s2.proto.sessions ≡ some session
    pub one_key : session.session_key ≡ d3.proto.session.session_key
    pub one_transcript : session.transcript ≡ d3.proto.session.transcript

  -- The nodes of a drone and a ground station that are ready complete the signed handshake in five events:
  -- both have one success on record, the ground station for one attempt, and hold one transcript and one
  -- session key.
  pub nodes_establish :
      (sound : IsSound env) (s : BaselineGroundStationNode Key) (d : BaselineUavNode Key)
      (dest : Module) (t1 t2 t3 t4 t5 : ℕ)
      → IsProvisioned env d.proto s.proto t1 t2 t3
      → uav_module s.num_uavs d.proto.uav_id ≡ some dest
      → IsCompleted s d dest t1 t2 t3 t4 t5
  nodes_establish sound s d dest t1 t2 t3 t4 t5 ready there =
      let a = handshake_establishes env sound d.proto s.proto t1 t2 t3 t4 t5 ready in
      let (type1, from1, id1) : Replies env MessageType.b1_m1_auth_request d.proto
          (done (some a.b1) a.uav1) =
        subst (Replies env MessageType.b1_m1_auth_request d.proto) a.sends_b1
          (start_phase2-Replies env t1 d.proto) in
      let (type3, from3, id3) : Replies env MessageType.b1_m3_uav_confirm a.uav1
          (done (some a.b3) a.uav2) =
        subst (Replies env MessageType.b1_m3_uav_confirm a.uav1) a.sends_b3
          (handle_m2-Replies env a.b2 t3 a.uav1) in
      let type2 : a.b2.type ≡ MessageType.b1_m2_gs_response =
        subst (Answers env MessageType.b1_m2_gs_response) a.sends_b2
          (handle_m1-Answers env a.b1 t2 s.proto) in
      let type4 : a.b4.type ≡ MessageType.b1_m4_gs_confirm =
        subst (Answers env MessageType.b1_m4_gs_confirm) a.sends_b4
          (handle_m3-Answers env a.b3 t4 a.gs1) in
      let sender3 : a.b3.sender_id ≡ d.proto.uav_id = from3 ∙ id1 in
      let (d1, p1, run1) = drone_begins env a.b1 t1 d a.uav1 a.sends_b1 in
      let (s1, q1, k1, c1, m1, run2) =
        station_answers_b1 env a.b1 a.b2 t2 s a.gs1 dest a.sends_b2 type1
          (ap (uav_module s.num_uavs) from1 ∙ there) in
      let (d2, p2, run3) =
        drone_answers_b2 env a.b2 a.b3 t3 d1 a.uav2 (ap (handle_m2 env a.b2 t3) p1 ∙ a.sends_b3)
          type2 in
      let (s2, q2, c2, m2, recorded, run4) =
        station_answers_b3 env a.b3 a.b4 t4 s1 a.gs2 dest
          (ap (handle_m3 env a.b3 t4) q1 ∙ a.sends_b4) type3
          (ap (uav_module s1.num_uavs) sender3
            ∙ (ap (λ n. uav_module n d.proto.uav_id) k1 ∙ there)) in
      let (d3, p3, won, run5) =
        drone_ends env a.b4 t5 d2 a.uav3 (ap (handle_m4 env a.b4 t5) p2 ∙ a.accepts_b4) type4 in
      record {
        b1 = a.b1;
        b2 = a.b2;
        b3 = a.b3;
        b4 = a.b4;
        d1 = d1;
        d2 = d2;
        d3 = d3;
        s1 = s1;
        s2 = s2;
        session = a.session;
        begins = run1;
        answers_b1 = run2;
        answers_b2 = run3;
        answers_b3 = run4;
        ends = run5;
        drone_success = won;
        station_success =
            subst (λ i. (baseline_record i s2.records).success ≡ true) sender3 recorded;
        counted = c2 ∙ ap (λ n. n + 1) c1;
        attempted = m2 ∙ m1;
        in_session = ap (λ gs. lookup d.proto.uav_id gs.sessions) q2 ∙ a.in_session;
        one_key = a.one_key ∙ ap (λ u. u.session.session_key) (sym p3);
        one_transcript = a.one_transcript ∙ ap (λ u. u.session.transcript) (sym p3);
      }

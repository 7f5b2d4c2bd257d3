-- ===== src/Nodes/Drone/Events.antt =====
-- nodes/UavNode.cc, `handleMessage` and `startPhase3Round`: what a drone does at an event. `none` is an
-- exception that leaves it.
use uav_omnet.Base.{
  ℕ, zero, suc, ◌+◌, ◌-◌, true, false, Option, none, some, List, [], ◌∷◌, ◌++◌, ℤ, pos,
  if◌then◌else◌,
}
use uav_omnet.Wire.{MessageType, Message, wire_bytes}
use uav_omnet.Protocol.Flow.{done, stop, fault}
use uav_omnet.Protocol.State.{Env, PufModel}
use uav_omnet.Protocol.Uav.{start_phase2, handle_m2, handle_m4}
use uav_omnet.Protocol.Peer.{start_phase3, handle_p1, handle_p2, handle_p3, peer_session_key}
use uav_omnet.Nodes.Carrier.{SimMessage, Timer, Effect}
use uav_omnet.Nodes.Station.{or_blank}
use uav_omnet.Nodes.Drone.{
  UavNode, peer_record, set_record, aborted_phase2, aborted_phase3, completed_phase3, send_to_gs,
  add_overhead, send_to_peer,
}

module _ (env : Env) where
  open env use {core}

  -- What `startPhase3` with a peer leaves.
  unfoldable pub begin_with : ℤ → ℕ → UavNode → Option (UavNode × List Effect)
  unfolding set_record
  begin_with peer now_ms node =
      let rec = record (peer_record peer node.phase3) { initiator = true } in
      elim (start_phase3 env peer now_ms node.proto) [
        | done reply uav ↦ some (
            send_to_peer env peer (or_blank reply)
              (set_record peer rec (record node { proto = uav })))
        | stop r uav ↦
            some (aborted_phase3 peer r (set_record peer rec (record node { proto = uav })), [])
        | fault ↦ none
      ]

  -- The loop of `startPhase3Round`, from a peer on.
  unfoldable pub round_from : ℕ → ℕ → ℕ → UavNode → Option (UavNode × List Effect)
  round_from zero peer now_ms node = some (node, [])
  round_from (suc left) peer now_ms node = elim (begin_with (pos peer) now_ms node) [
    | none ↦ none
    | some (node', sent) ↦ elim (round_from left (peer + 1) now_ms node') [
      | none ↦ none
      | some (last, more) ↦ some (last, sent ++ more)
    ]
  ]

  unfoldable pub start_phase3_round : ℕ → UavNode → Option (UavNode × List Effect)
  start_phase3_round now_ms node =
      let round = round_from (node.num_uavs - (node.uav_id + 1)) (node.uav_id + 1) now_ms node in
      if node.full_mesh then round else some (node, [])

  -- The self-message `startPhase2`.
  unfoldable pub begin_phase2 : PufModel → ℕ → UavNode → Option (UavNode × List Effect)
  begin_phase2 puf now_ms node = elim (start_phase2 env puf now_ms node.proto) [
    | done reply uav ↦ some (
        send_to_gs env (or_blank reply) (record node {
          proto = uav;
          phase2 = record node.phase2 { bytes_m1 = wire_bytes core (or_blank reply) };
        }))
    | stop r uav ↦ some (aborted_phase2 r (record node { proto = uav }), [])
    | fault ↦ none
  ]

  unfoldable pub handle_timer : PufModel → Timer → ℕ → UavNode → Option (UavNode × List Effect)
  handle_timer puf Timer.start_phase2 now_ms node = begin_phase2 puf now_ms node
  handle_timer puf Timer.start_phase3 now_ms node = start_phase3_round now_ms node

  unfoldable pub receive_m2 : Message → ℕ → UavNode → Option (UavNode × List Effect)
  receive_m2 payload now_ms node =
      let bytes = wire_bytes core payload in
      let counted = record node {
        phase2 = record node.phase2 {
          bytes_m2 = bytes;
          overhead_bytes = node.phase2.overhead_bytes + bytes;
        };
      } in
      elim (handle_m2 env payload now_ms node.proto) [
        | done reply uav ↦ some (
            send_to_gs env (or_blank reply) (record counted {
              proto = uav;
              phase2 = record counted.phase2 { bytes_m3 = wire_bytes core (or_blank reply) };
            }))
        | stop r uav ↦ some (aborted_phase2 r (record counted { proto = uav }), [])
        | fault ↦ none
      ]

  -- Peer authentication begins only once the credentials have arrived.
  unfoldable pub receive_m4 : Message → ℕ → UavNode → Option (UavNode × List Effect)
  receive_m4 payload now_ms node =
      let bytes = wire_bytes core payload in
      let counted = record node {
        phase2 = record node.phase2 {
          bytes_m4 = bytes;
          overhead_bytes = node.phase2.overhead_bytes + bytes;
        };
      } in
      elim (handle_m4 env payload now_ms node.proto) [
        | done reply uav ↦ some (
          record counted {
            proto = uav;
            phase2 = record counted.phase2 {
              success = true;
              ephemeral_erased = uav.phase2.ephemeral_erased;
            };
            auth_samples = node.auth_samples + 1;
          },
          Effect.schedules Timer.start_phase3 ∷ [],
        )
        | stop r uav ↦ some (aborted_phase2 r (record counted { proto = uav }), [])
        | fault ↦ none
      ]

  unfoldable pub receive_p1 : Message → ℕ → UavNode → Option (UavNode × List Effect)
  unfolding set_record
  receive_p1 payload now_ms node =
      let peer = payload.sender_id in
      let rec = peer_record peer node.phase3 in
      let entered =
        set_record peer
          (record rec {
            initiator = false;
            overhead_bytes = rec.overhead_bytes + wire_bytes core payload;
          })
          node in
      elim (handle_p1 env payload now_ms node.proto) [
        | done reply uav ↦
            some (send_to_peer env peer (or_blank reply) (record entered { proto = uav }))
        | stop r uav ↦ some (aborted_phase3 peer r (record entered { proto = uav }), [])
        | fault ↦ none
      ]

  -- After the answer to P2, whatever it was: the initiator completes when it holds the key.
  unfoldable pub complete_if_keyed : ℤ → UavNode → UavNode
  complete_if_keyed peer node = elim (peer_session_key peer node.proto) [
    | none ↦ node
    | some key ↦ completed_phase3 peer node
  ]

  unfoldable pub receive_p2 : Message → ℕ → UavNode → Option (UavNode × List Effect)
  unfolding add_overhead
  receive_p2 payload now_ms node =
      let peer = payload.sender_id in
      let entered = add_overhead env peer (wire_bytes core payload) node in
      elim (handle_p2 env payload now_ms node.proto) [
        | done reply uav ↦
            (let (sent, effects) =
                send_to_peer env peer (or_blank reply) (record entered { proto = uav }) in
              some (complete_if_keyed peer sent, effects))
        | stop r uav ↦
            some
              (complete_if_keyed peer (aborted_phase3 peer r (record entered { proto = uav })), [])
        | fault ↦ none
      ]

  unfoldable pub receive_p3 : Message → ℕ → UavNode → Option (UavNode × List Effect)
  unfolding add_overhead
  receive_p3 payload now_ms node =
      let peer = payload.sender_id in
      let entered = add_overhead env peer (wire_bytes core payload) node in
      elim (handle_p3 env payload now_ms node.proto) [
        | done reply uav ↦ some (completed_phase3 peer (record entered { proto = uav }), [])
        | stop r uav ↦ some (aborted_phase3 peer r (record entered { proto = uav }), [])
        | fault ↦ none
      ]

  unfoldable pub handle_message : SimMessage → ℕ → UavNode → Option (UavNode × List Effect)
  handle_message msg now_ms node = elim msg.payload.type [
    | MessageType.p2_m2_gs_response ↦ receive_m2 msg.payload now_ms node
    | MessageType.p2_m4_gs_confirm ↦ receive_m4 msg.payload now_ms node
    | MessageType.p3_p1_peer_request ↦ receive_p1 msg.payload now_ms node
    | MessageType.p3_p2_peer_response ↦ receive_p2 msg.payload now_ms node
    | MessageType.p3_p3_peer_complete ↦ receive_p3 msg.payload now_ms node
    | _ ↦ some (node, [])
  ]

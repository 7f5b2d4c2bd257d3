-- ===== src/Nodes/Network/Impersonation/Target.antt =====
-- nodes/UavNode.cc: what a drone that authenticates the ground station does with a forged M2, and what it
-- sends when Phase 2 starts.
use uav_omnet.Base.{ℕ, ◌≡◌, ap, ◌∙◌, true, false, Option, none, some, inl, inr, List, arith}
use uav_omnet.Core.{FieldId}
use uav_omnet.Wire.{MessageType, Message}
use uav_omnet.Protocol.Flow.{done, stop, Flow-cases}
use uav_omnet.Protocol.State.{Env, PufModel, Uav}
use uav_omnet.Protocol.Uav.{start_phase2}
use uav_omnet.Protocol.Safety.Station.{field}
use uav_omnet.Protocol.Safety.Drone.{expected_input2, handle_m2_no_oracle}
use uav_omnet.Protocol.Safety.Replies.{Replies, start_phase2-Replies}
use uav_omnet.Nodes.Carrier.{SimMessage, Timer, Effect}
use uav_omnet.Nodes.Medium.{is_drone_id}
use uav_omnet.Nodes.Drone.{UavNode, aborted_phase2, send_to_gs}
use uav_omnet.Nodes.Drone.Events.{begin_phase2, handle_timer, receive_m2, handle_message}
use uav_omnet.Nodes.Network.Traffic.{All, IsRequest}

-- A drone that is not in legacy mode.
abbrev pub IsHardened : UavNode → Type 0
IsHardened node = (node.proto.legacy_no_gs_auth ≡ false) × (is_drone_id node.proto.uav_id ≡ true)

module _ (env : Env) where
  -- What an event of the drone leaves.
  abbrev pub Requests : Option (UavNode × List Effect) → Type 0
  Requests none = Unit
  Requests (some (node, effects)) = IsHardened node × All IsRequest effects

  -- The authenticator of an M2 that does not verify at a drone.
  abbrev pub IsForged : Uav → Message → Type 0
  IsForged uav m2 =
      env.suite.mac_verify uav.phase2.auth_key (expected_input2 env uav m2)
        (field m2 FieldId.mac_tag)
      ≡ false

  pub handle_timer-Requests :
      (puf : PufModel) (now_ms : ℕ) (node : UavNode)
      → IsHardened node
      → Requests (handle_timer env puf Timer.start_phase2 now_ms node)
  unfolding handle_timer begin_phase2 send_to_gs aborted_phase2
  handle_timer-Requests puf now_ms node h =
      let started = start_phase2-Replies env puf now_ms node.proto in
      elim (Flow-cases (start_phase2 env puf now_ms node.proto)) [
        | inl (none, uav, e) ↦ absurd (ground (arith, e, started))
        | inl (some m1, uav, e) ↦
            (let (type, sender, legacy, id) : Replies MessageType.p2_m1_auth_request node.proto
                  (done (some m1) uav) =
                ground (arith, e, started) in
              let hardened : uav.legacy_no_gs_auth ≡ false = legacy ∙ h.0 in
              let own : is_drone_id uav.uav_id ≡ true = ap is_drone_id id ∙ h.1 in
              let from : is_drone_id m1.sender_id ≡ true = ap is_drone_id sender ∙ h.1 in
              ground (arith, e, type, from, hardened, own))
        | inr (inl (r, uav, e)) ↦
            (let (legacy, id) : Replies MessageType.p2_m1_auth_request node.proto (stop r uav) =
                ground (arith, e, started) in
              let hardened : uav.legacy_no_gs_auth ≡ false = legacy ∙ h.0 in
              let own : is_drone_id uav.uav_id ≡ true = ap is_drone_id id ∙ h.1 in
              ground (arith, e, hardened, own))
        | inr (inr e) ↦ ground (arith, e)
      ]

  -- A forged M2 gets no answer.
  pub handle_message-Requests :
      (msg : SimMessage) (now_ms : ℕ) (node : UavNode)
      → IsHardened node
      → msg.payload.type ≡ MessageType.p2_m2_gs_response
      → IsForged node.proto msg.payload
      → Requests (handle_message env msg now_ms node)
  unfolding handle_message receive_m2 aborted_phase2
  handle_message-Requests msg now_ms node h type forged =
      let (r, uav, e, same) = handle_m2_no_oracle env msg.payload now_ms node.proto h.0 forged in
      let hardened : uav.legacy_no_gs_auth ≡ false = ap (λ u. u.legacy_no_gs_auth) same ∙ h.0 in
      let own : is_drone_id uav.uav_id ≡ true = ap (λ u. is_drone_id u.uav_id) same ∙ h.1 in
      ground (arith, type, e, hardened, own)

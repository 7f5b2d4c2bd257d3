-- ===== src/Nodes/Attacker/Observe.antt =====
-- nodes/AttackerNode.cc, `observe`, `handleMessage` and the verdicts of `finish`.
use uav_omnet.Base.{
  ℕ, ◌+◌, Bool, false, not, Option, none, some, List, [], ◌++◌, ◌&&◌, ◌||◌, ltb, if◌then◌else◌,
  eq_ℤ, lookup, insert,
}
use uav_omnet.Core.{FieldId, FieldMap}
use uav_omnet.Wire.{MessageType, eq_type}
use uav_omnet.Protocol.State.{Env}
use uav_omnet.Nodes.Carrier.{SimMessage, Effect}
use uav_omnet.Nodes.Attacker.{
  AttackStat, AttackerNode, stat_of, is_gsimpersonate, is_replay, owns_delivery, has_seen,
  attempt_credential_recovery, inject_forged_m2, inject_replay, forward_tampered,
}

unfoldable pub observe_m2 : SimMessage → AttackerNode → AttackerNode
observe_m2 msg node =
    if eq_type msg.payload.type MessageType.p2_m2_gs_response && not msg.injected_by_attacker
    then record node { genuine_m2_seen = insert msg.payload.receiver_id tt node.genuine_m2_seen }
    else node

-- The oracle signal: an M3 of the target after a forgery, and before any genuine M2.
unfoldable pub observe_m3 : SimMessage → AttackerNode → AttackerNode
observe_m3 msg node =
    let s = stat_of node.stats.gsimpersonate in
    let hit = ltb 0 s.attempts && not (has_seen node.target_uav node.genuine_m2_seen) in
    let entry =
      if hit
      then record s { replies_elicited = s.replies_elicited + 1; accepted = s.accepted + 1 }
      else s in
    if eq_type msg.payload.type MessageType.p2_m3_uav_confirm
      && (is_gsimpersonate node.attack_mode && eq_ℤ msg.payload.sender_id node.target_uav)
    then record node { stats = record node.stats { gsimpersonate = some entry } }
    else node

module _ (env : Env) (first_field : FieldMap → Option FieldId) (turns : ℕ) where
  -- What an M4 leads to.
  unfoldable pub observe_m4 : SimMessage → AttackerNode → Option AttackerNode
  observe_m4 msg node =
      let recovered =
        attempt_credential_recovery env first_field turns msg
          (record node { observed_m4 = node.observed_m4 + 1 }) in
      if eq_type msg.payload.type MessageType.p2_m4_gs_confirm then recovered else some node

  -- The first M1 of each drone is kept, and that of the target is used.
  unfoldable pub capture_m1 : SimMessage → ℕ → AttackerNode → Option (AttackerNode × List Effect)
  capture_m1 msg now_ms node =
      let victim = msg.payload.sender_id in
      let kept = record node { captured_m1 = insert victim msg node.captured_m1 } in
      let targeted = eq_ℤ victim node.target_uav in
      elim (lookup victim node.captured_m1) [
        | some old ↦ some (node, [])
        | none ↦
            if is_gsimpersonate node.attack_mode && targeted
            then inject_forged_m2 env first_field turns victim now_ms kept
            else if is_replay node.attack_mode && targeted
            then some (inject_replay msg kept)
            else some (kept, [])
      ]

  unfoldable pub observe_m1 : SimMessage → ℕ → AttackerNode → Option (AttackerNode × List Effect)
  observe_m1 msg now_ms node =
      let captured = capture_m1 msg now_ms node in
      if eq_type msg.payload.type MessageType.p2_m1_auth_request then captured else some (node, [])

  unfoldable pub observe : SimMessage → ℕ → AttackerNode → Option (AttackerNode × List Effect)
  observe msg now_ms node =
      elim (observe_m4 msg (record node { observed_messages = node.observed_messages + 1 })) [
        | none ↦ none
        | some after_m4 ↦ elim (observe_m1 msg now_ms after_m4) [
          | none ↦ none
          | some (after_m1, sent) ↦ some (observe_m3 msg (observe_m2 msg after_m1), sent)
        ]
      ]

  -- In the modes that own delivery the message is altered and passed on; otherwise it ends here.
  unfoldable pub handle_message :
      SimMessage → ℕ → AttackerNode → Option (AttackerNode × List Effect)
  handle_message msg now_ms node = elim (observe msg now_ms node) [
    | none ↦ none
    | some (seen, sent) ↦
        if owns_delivery seen.attack_mode
        then elim (forward_tampered env first_field turns msg seen) [
          | none ↦ none
          | some (last, more) ↦ some (last, sent ++ more)
        ]
        else some (seen, sent)
  ]

-- Whether an attack counts as a success.
unfoldable pub succeeded : AttackStat → Bool
succeeded s = ltb 0 s.accepted || (ltb 0 s.replies_elicited || ltb 0 s.credentials_exposed)

-- The scalar `outcome_matches_expectation` of an entry, whose key is the configured attack or not.
unfoldable pub outcome_matches : Bool → Bool → AttackStat → Bool
unfolding succeeded
outcome_matches configured expect_success s =
    let expected = if configured then expect_success else false in
    if succeeded s then expected else not expected

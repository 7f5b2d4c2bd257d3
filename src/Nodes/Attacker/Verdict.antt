-- ===== src/Nodes/Attacker/Verdict.antt =====
-- nodes/AttackerNode.cc: what the counters of the attacks can come to, over any messages.
use uav_omnet.Base.{
  ℕ, zero, suc, ◌+◌, ◌≤◌, ◌≡◌, Bool, true, false, not, Option, none, some, Option-cases, Bool-cases,
  inl, inr, List, [], ◌∷◌, ltb, insert, ℤ, arith,
}
use uav_omnet.Core.{FieldId, FieldMap}
use uav_omnet.Crypto.Drbg.{bytes}
use uav_omnet.Protocol.State.{Env}
use uav_omnet.Nodes.Carrier.{SimMessage, Module, Effect, uav_module}
use uav_omnet.Nodes.Attacker.{
  AttackStats, AttackerNode, count_forged, stat_of, attempt_credential_recovery, forge_from,
  inject_forged_m2, inject_replay, corrupted, forward_tampered,
}
use uav_omnet.Nodes.Attacker.Observe.{
  observe_m4, capture_m1, observe_m1, observe_m2, observe_m3, observe, handle_message, succeeded,
  outcome_matches,
}

-- Replays and alterations have no success on record, and no more forgeries or replays than allowed
-- were sent; `expect` and `limit` are what the node was configured with.
pub record IsBlind (expect : Bool) (limit : ℕ) (stats : AttackStats) (expects_now : Bool)
    (limit_now : ℕ) : Type 0 where
  pub replay : succeeded (stat_of stats.replay) ≡ false
  pub tamper : succeeded (stat_of stats.tamper) ≡ false
  pub forged : (stat_of stats.gsimpersonate).attempts ≤ limit
  pub replayed : (stat_of stats.replay).attempts ≤ limit
  pub expects : expects_now ≡ expect
  pub limited : limit_now ≡ limit

module _ (env : Env) (first_field : FieldMap → Option FieldId) (turns : ℕ) (expect : Bool)
    (limit : ℕ) where
  abbrev Blind : AttackerNode → Type 0
  Blind node = IsBlind expect limit node.stats node.expect_success node.max_attempts

  -- A property of the node that an event leaves, if it leaves one.
  abbrev Leaves : Option (AttackerNode × List Effect) → Type 0
  Leaves none = Unit
  Leaves (some (node, sent)) = Blind node

  abbrev LeavesNode : Option AttackerNode → Type 0
  LeavesNode none = Unit
  LeavesNode (some node) = Blind node

  attempt-IsBlind :
      (msg : SimMessage) (node : AttackerNode)
      → Blind node
      → LeavesNode (attempt_credential_recovery env first_field turns msg node)
  unfolding attempt_credential_recovery succeeded
  attempt-IsBlind msg node h = ground arith

  observe_m4-IsBlind :
      (msg : SimMessage) (node : AttackerNode)
      → Blind node
      → LeavesNode (observe_m4 env first_field turns msg node)
  unfolding observe_m4
  observe_m4-IsBlind msg node h =
      ground (arith, attempt-IsBlind msg (record node { observed_m4 = node.observed_m4 + 1 }) h)

  inject_replay-IsBlind :
      (msg : SimMessage) (node : AttackerNode) → Blind node → Blind (inject_replay msg node).0
  unfolding inject_replay succeeded
  inject_replay-IsBlind msg node h = ground arith

  forge_from-IsBlind :
      (left : ℕ) (victim : ℤ) (dest : Module) (now_ms : ℕ) (node : AttackerNode)
      → Blind node
      → Leaves (forge_from env first_field turns left victim dest now_ms node)
  unfolding forge_from
  forge_from-IsBlind zero victim dest now_ms node h = h
  forge_from-IsBlind (suc left) victim dest now_ms node h =
      elim (Bool-cases (ltb (stat_of node.stats.gsimpersonate).attempts node.max_attempts)) [
        | inr full ↦ ground (arith, h)
        | inl room ↦ elim (Option-cases (bytes env.sha3_256 16 node.rng)) [
          | inl e ↦ ground (arith, h)
          | inr (nonce, e) ↦ elim (Option-cases (bytes env.sha3_256 32 nonce.1)) [
            | inl f ↦ ground (arith, h)
            | inr (epk, f) ↦ elim (Option-cases (bytes env.sha3_256 env.suite.mac_len epk.1)) [
              | inl g ↦ ground (arith, h)
              | inr (tag, g) ↦
                  (let next = count_forged (record node { rng = tag.1 }) in
                    let kept : Blind next = ground (arith, h) in
                    ground (arith, forge_from-IsBlind left victim dest now_ms next kept))
            ]
          ]
        ]
      ]

  observe_m3-IsBlind :
      (msg : SimMessage) (node : AttackerNode) → Blind node → Blind (observe_m3 msg node)
  unfolding observe_m3 succeeded
  observe_m3-IsBlind msg node h = ground arith

  forward_tampered-IsBlind :
      (msg : SimMessage) (node : AttackerNode)
      → Blind node
      → Leaves (forward_tampered env first_field turns msg node)
  unfolding forward_tampered corrupted succeeded
  forward_tampered-IsBlind msg node h = ground arith

  inject_forged_m2-IsBlind :
      (victim : ℤ) (now_ms : ℕ) (node : AttackerNode)
      → Blind node
      → Leaves (inject_forged_m2 env first_field turns victim now_ms node)
  unfolding inject_forged_m2
  inject_forged_m2-IsBlind victim now_ms node h =
      let s = stat_of node.stats.gsimpersonate in
      let entered : AttackerNode = record node {
        stats = record node.stats { gsimpersonate = some s };
      } in
      let kept : Blind entered = ground (arith, h) in
      elim (Option-cases (uav_module node.num_uavs victim)) [
        | inl e ↦ ground (arith, kept)
        | inr (dest, e) ↦ ground (arith, kept, forge_from-IsBlind 8 victim dest now_ms entered kept)
      ]

  capture_m1-IsBlind :
      (msg : SimMessage) (now_ms : ℕ) (node : AttackerNode)
      → Blind node
      → Leaves (capture_m1 env first_field turns msg now_ms node)
  unfolding capture_m1
  capture_m1-IsBlind msg now_ms node h =
      let victim = msg.payload.sender_id in
      let kept : AttackerNode = record node { captured_m1 = insert victim msg node.captured_m1 } in
      ground
        (arith, h, inject_forged_m2-IsBlind victim now_ms kept h, inject_replay-IsBlind msg kept h)

  observe_m1-IsBlind :
      (msg : SimMessage) (now_ms : ℕ) (node : AttackerNode)
      → Blind node
      → Leaves (observe_m1 env first_field turns msg now_ms node)
  unfolding observe_m1
  observe_m1-IsBlind msg now_ms node h = ground (arith, h, capture_m1-IsBlind msg now_ms node h)

  observe_m2-IsBlind :
      (msg : SimMessage) (node : AttackerNode) → Blind node → Blind (observe_m2 msg node)
  unfolding observe_m2
  observe_m2-IsBlind msg node h = ground (arith, h)

  observe-IsBlind :
      (msg : SimMessage) (now_ms : ℕ) (node : AttackerNode)
      → Blind node
      → Leaves (observe env first_field turns msg now_ms node)
  unfolding observe
  observe-IsBlind msg now_ms node h =
      let first : AttackerNode = record node { observed_messages = node.observed_messages + 1 } in
      let m4 = observe_m4-IsBlind msg first h in
      elim (Option-cases (observe_m4 env first_field turns msg first)) [
        | inl e ↦ ground (arith, e)
        | inr (after_m4, e) ↦
            (let kept : Blind after_m4 = ground (arith, e, m4) in
              let m1 = observe_m1-IsBlind msg now_ms after_m4 kept in
              elim (Option-cases (observe_m1 env first_field turns msg now_ms after_m4)) [
                | inl f ↦ ground (arith, e, f)
                | inr ((after_m1, sent), f) ↦
                    (let kept1 : Blind after_m1 = ground (arith, f, m1) in
                      let last =
                        observe_m3-IsBlind msg (observe_m2 msg after_m1)
                          (observe_m2-IsBlind msg after_m1 kept1) in
                      ground (arith, e, f, last))
              ])
      ]

  handle_message-IsBlind :
      (msg : SimMessage) (now_ms : ℕ) (node : AttackerNode)
      → Blind node
      → Leaves (handle_message env first_field turns msg now_ms node)
  unfolding handle_message
  handle_message-IsBlind msg now_ms node h =
      let seen_kept = observe-IsBlind msg now_ms node h in
      elim (Option-cases (observe env first_field turns msg now_ms node)) [
        | inl e ↦ ground (arith, e)
        | inr ((seen, sent), e) ↦
            (let kept : Blind seen = ground (arith, e, seen_kept) in
              let more = forward_tampered-IsBlind msg seen kept in ground (arith, e, kept, more))
      ]

-- The attacker after a sequence of messages with their times; `none` is an exception.
unfoldable pub handle_all :
    Env
    → (FieldMap → Option FieldId)
    → ℕ
    → List (SimMessage × ℕ)
    → AttackerNode
    → Option AttackerNode
handle_all env first_field turns [] node = some node
handle_all env first_field turns ((msg, now_ms) ∷ rest) node =
    elim (handle_message env first_field turns msg now_ms node) [
      | none ↦ none
      | some (next, sent) ↦ handle_all env first_field turns rest next
    ]

-- Before any message.
abbrev pub no_stats : AttackStats
no_stats = record { credsniff = none; gsimpersonate = none; replay = none; tamper = none }

module _ (env : Env) (first_field : FieldMap → Option FieldId) (turns : ℕ) where
  handle_all-IsBlind :
      (expect : Bool) (limit : ℕ) (events : List (SimMessage × ℕ)) (node last : AttackerNode)
      → IsBlind expect limit node.stats node.expect_success node.max_attempts
      → handle_all env first_field turns events node ≡ some last
      → IsBlind expect limit last.stats last.expect_success last.max_attempts
  unfolding handle_all
  handle_all-IsBlind expect limit [] node last h e = ground (arith, h)
  handle_all-IsBlind expect limit ((msg, now_ms) ∷ rest) node last h e =
      let kept = handle_message-IsBlind env first_field turns expect limit msg now_ms node h in
      elim (Option-cases (handle_message env first_field turns msg now_ms node)) [
        | inl f ↦ absurd (ground (arith, f))
        | inr ((next, sent), f) ↦
            handle_all-IsBlind expect limit rest next last (ground (arith, f, kept))
              (ground (arith, f, e))
      ]

  -- Whatever messages an attacker without statistics handles, the verdict on replays and on
  -- alterations, configured as the attack, is the negation of the expectation: no message is ever
  -- counted as their success. Forgeries and replays stay within the attempts allowed.
  pub verdict_fixed :
      (events : List (SimMessage × ℕ)) (node last : AttackerNode)
      → node.stats ≡ no_stats
      → handle_all env first_field turns events node ≡ some last
      → (outcome_matches true last.expect_success (stat_of last.stats.replay)
          ≡ not node.expect_success)
        × (outcome_matches true last.expect_success (stat_of last.stats.tamper)
            ≡ not node.expect_success)
        × ((stat_of last.stats.gsimpersonate).attempts ≤ node.max_attempts)
        × ((stat_of last.stats.replay).attempts ≤ node.max_attempts)
  unfolding outcome_matches succeeded
  verdict_fixed events node last fresh e =
      let start : IsBlind node.expect_success node.max_attempts node.stats node.expect_success
          node.max_attempts =
        ground (arith, fresh) in
      let end = handle_all-IsBlind node.expect_success node.max_attempts events node last start e in
      (ground (arith, end), ground (arith, end), end.forged, end.replayed)

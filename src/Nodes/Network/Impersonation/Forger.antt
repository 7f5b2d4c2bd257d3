-- ===== src/Nodes/Network/Impersonation/Forger.antt =====
-- nodes/AttackerNode.cc with `attackMode` "gsimpersonate": what the attacker does with a request.
use uav_omnet.Base.{
  ℕ, zero, suc, ◌+◌, ◌≡◌, refl, true, ltb, Option, none, some, Option-cases, Bool-cases, inl, inr,
  List, ◌∷◌, ℤ, pos, negsuc, insert, arith,
}
use uav_omnet.Core.{FieldId, FieldMap}
use uav_omnet.Wire.{MessageType}
use uav_omnet.Crypto.Drbg.{bytes}
use uav_omnet.Protocol.State.{Env}
use uav_omnet.Nodes.Carrier.{SimMessage, Module, Effect, uav_module}
use uav_omnet.Nodes.Attacker.{
  AttackerNode, stat_of, count_forged, is_gsimpersonate, forged_m2, forge_from, inject_forged_m2,
}
use uav_omnet.Nodes.Attacker.Observe.{
  capture_m1, observe_m1, observe_m2, observe_m3, observe_m4, observe, handle_message,
}
use uav_omnet.Nodes.Network.Traffic.{All, IsForgery}

-- An attacker that poses as the ground station and has had no reply.
abbrev pub IsUnanswered : AttackerNode → Type 0
IsUnanswered node =
    (is_gsimpersonate node.attack_mode ≡ true)
    × ((stat_of node.stats.gsimpersonate).replies_elicited ≡ 0)

uav_module-uav :
    (n : ℕ) (id : ℤ) (dest : Module) → uav_module n id ≡ some dest → Module.uav id ≡ dest
unfolding uav_module
uav_module-uav n (pos i) dest e = ground (arith, e)
uav_module-uav n (negsuc i) dest e = absurd (ground (arith, e))

module _ (env : Env) (first_field : FieldMap → Option FieldId) (turns : ℕ) where
  -- What an event of the attacker leaves.
  abbrev pub Forges : Option (AttackerNode × List Effect) → Type 0
  Forges none = Unit
  Forges (some (node, effects)) = IsUnanswered node × All IsForgery effects

  forge_from-Forges :
      (left : ℕ) (victim id : ℤ) (now_ms : ℕ) (node : AttackerNode)
      → IsUnanswered node
      → Forges (forge_from env first_field turns left victim (Module.uav id) now_ms node)
  unfolding forge_from forged_m2
  forge_from-Forges zero victim id now_ms node h = (h, tt)
  forge_from-Forges (suc left) victim id now_ms node h =
      elim (Bool-cases (ltb (stat_of node.stats.gsimpersonate).attempts node.max_attempts)) [
        | inr full ↦ ground (arith, h)
        | inl room ↦ elim (Option-cases (bytes env.sha3_256 16 node.rng)) [
          | inl e ↦ ground (arith, h)
          | inr (nonce, e) ↦ elim (Option-cases (bytes env.sha3_256 32 nonce.1)) [
            | inl f ↦ ground (arith, h)
            | inr (epk, f) ↦ elim (Option-cases (bytes env.sha3_256 env.suite.mac_len epk.1)) [
              | inl g ↦ ground (arith, h)
              | inr (tag, g) ↦
                  (let next = count_forged (record node { rng = tag.1 }) in
                    let more = forge_from-Forges left victim id now_ms next h in
                    elim (Option-cases
                      (forge_from env first_field turns left victim (Module.uav id) now_ms next)) [
                        | inl k ↦ ground (arith, room, e, f, g, k)
                        | inr ((last, sent), k) ↦
                            (let rest : Forges (some (last, sent)) = ground (arith, k, more) in
                              let forged =
                                forged_m2 env first_field turns victim now_ms nonce.0 epk.0 tag.0 in
                              let whole : forge_from env first_field turns (suc left) victim
                                    (Module.uav id) now_ms node
                                  ≡ some (
                                    last,
                                    Effect.transmits forged (some (Module.uav id)) ∷ sent,
                                  ) =
                                ground (arith, room, e, f, g, k) in
                              rw whole (rest.0, ((refl, refl, (id, refl)), rest.1)))
                      ])
            ]
          ]
        ]
      ]

  inject_forged_m2-Forges :
      (victim : ℤ) (now_ms : ℕ) (node : AttackerNode)
      → IsUnanswered node
      → Forges (inject_forged_m2 env first_field turns victim now_ms node)
  unfolding inject_forged_m2
  inject_forged_m2-Forges victim now_ms node h =
      elim (Option-cases (uav_module node.num_uavs victim)) [
        | inl e ↦ ground (arith, e, h)
        | inr (dest, e) ↦
            (let there = uav_module-uav node.num_uavs victim dest e in
              let s = stat_of node.stats.gsimpersonate in
              let entered : AttackerNode = record node {
                stats = record node.stats { gsimpersonate = some s };
              } in
              let more = forge_from-Forges 8 victim victim now_ms entered h in
              ground (arith, e, there, h, more))
      ]

  capture_m1-Forges :
      (msg : SimMessage) (now_ms : ℕ) (node : AttackerNode)
      → IsUnanswered node
      → Forges (capture_m1 env first_field turns msg now_ms node)
  unfolding capture_m1
  capture_m1-Forges msg now_ms node h =
      let victim = msg.payload.sender_id in
      let kept : AttackerNode = record node { captured_m1 = insert victim msg node.captured_m1 } in
      ground (arith, h, inject_forged_m2-Forges victim now_ms kept h)

  -- The answer to a request is forgeries, and no reply is counted.
  pub handle_message-Forges :
      (msg : SimMessage) (now_ms : ℕ) (node : AttackerNode)
      → IsUnanswered node
      → msg.payload.type ≡ MessageType.p2_m1_auth_request
      → Forges (handle_message env first_field turns msg now_ms node)
  unfolding handle_message observe observe_m4 observe_m1 observe_m2 observe_m3
  handle_message-Forges msg now_ms node h type =
      let first : AttackerNode = record node { observed_messages = node.observed_messages + 1 } in
      ground (arith, h, type, capture_m1-Forges msg now_ms first h)

-- ===== src/Nodes/Network/Impersonation.antt =====
-- The experiment of simulations/omnetpp.ini in which the attacker poses as the ground station
-- (`attackMode` "gsimpersonate" of the attacker and "impersonate" of the medium), with drones that
-- authenticate the ground station (`protocolVariant` "hardened").
pub mod Forger
pub mod Target
use mathlib.Core.Path.{subst}
use uav_omnet.Base.{
  ℕ, ◌≡◌, refl, sym, ap, ◌∙◌, Bool, true, false, Option, none, some, Option-cases, inl, inr, List,
  [], ◌∷◌, ◌++◌, ℤ, eq_ℤ, eq_ℤ_iff, lookup, insert, lookup-insert, Bool-cases, if◌then◌else◌, arith,
}
use uav_omnet.Core.{FieldId, FieldMap}
use uav_omnet.Wire.{MessageType}
use uav_omnet.Protocol.State.{Env, PufModel}
use uav_omnet.Nodes.Carrier.{SimMessage, Module, Delivery, Timer, Effect}
use uav_omnet.Nodes.Drone.{UavNode}
use uav_omnet.Nodes.Drone.Events
use uav_omnet.Nodes.Drone.Events.{handle_timer}
use uav_omnet.Nodes.Attacker.{AttackerNode, stat_of}
use uav_omnet.Nodes.Attacker.Observe
use uav_omnet.Nodes.Network.{Event, Network, perform, take_event}
use uav_omnet.Nodes.Network.Traffic.{
  All, All-append, IsTapped, IsExpected, IsForgery, IsRequest, transmit-forgery, transmit-request,
  perform-Kept,
}
use Forger.{IsUnanswered, Forges, handle_message-Forges}
use Target.{IsHardened, IsForged, Requests, handle_timer-Requests, handle_message-Requests}

-- The experiment, while the attacker has had no reply.
pub record IsQuiet (net : Network) : Type 0 where
  pub tapped : IsTapped net.medium
  pub expected : All IsExpected net.pending
  pub poses : (node : AttackerNode) × (net.attacker ≡ some node) × IsUnanswered node
  pub hardened : (id : ℤ) (node : UavNode) → lookup id net.drones ≡ some node → IsHardened node

All-split :
    (P : Event → Type 0) (before after : List Event) (e : Event)
    → All P (before ++ (e ∷ after))
    → P e × All P (before ++ after)
All-split P [] after e (first, rest) = (first, rest)
All-split P (x ∷ before) after e (first, rest) =
    let (found, others) = All-split P before after e rest in (found, (first, others))

module _ (env : Env) (puf : ℤ → PufModel) (first_field : FieldMap → Option FieldId)
    (turns : ℕ) where
  -- An M2 that arrives at a drone does not verify there.
  abbrev pub IsRefused : Network → Event → Type 0
  IsRefused net (Event.arrives d) =
      (id : ℤ) (node : UavNode)
      → d.to ≡ Module.uav id
      → lookup id net.drones ≡ some node
      → IsForged env node.proto d.message.payload
  IsRefused net (Event.expires id timer) = Unit

  -- A run in which no forged M2 verifies at the drone where it arrives.
  pub data Unforged (start : Network) : Network → Type 0 where
    here : Unforged start start
    later :
        {net net' : Network} (before after : List Event) (e : Event) (now_ms : ℕ)
        → Unforged start net
        → net.pending ≡ before ++ (e ∷ after)
        → IsRefused net e
        → take_event env puf first_field turns e now_ms (record net { pending = before ++ after })
          ≡ some net'
        → Unforged start net'

  drone-IsQuiet :
      (id : ℤ) (node : UavNode) (effects : List Effect) (net : Network)
      → IsQuiet net
      → IsHardened node
      → All IsRequest effects
      → IsQuiet
          (perform env (Module.uav id) effects (record net { drones = insert id node net.drones }))
  drone-IsQuiet id node effects net quiet hardened requests =
      let (tapped, expected, drones, attacker) =
        perform-Kept env (Module.uav id) IsRequest (transmit-request env.core id) (λ timer p. p)
          effects (record net { drones = insert id node net.drones }) requests quiet.tapped
          quiet.expected in
      record {
        tapped = tapped;
        expected = expected;
        poses = (quiet.poses.0, attacker ∙ quiet.poses.1, quiet.poses.2);
        hardened = λ j other found.
            let there : lookup j (insert id node net.drones) ≡ some other =
              ap (λ ds. lookup j ds) (sym drones) ∙ found in
            elim (Bool-cases (eq_ℤ id j)) [
              | inl same ↦ ground (arith, there, lookup-insert id j node net.drones, same, hardened)
              | inr apart ↦
                  quiet.hardened j other
                    (ground (arith, there, lookup-insert id j node net.drones, apart))
            ];
      }

  attacker-IsQuiet :
      (node : AttackerNode) (effects : List Effect) (net : Network)
      → IsQuiet net
      → IsUnanswered node
      → All IsForgery effects
      → IsQuiet (perform env Module.attacker_node effects (record net { attacker = some node }))
  attacker-IsQuiet node effects net quiet unanswered forgeries =
      let (tapped, expected, drones, attacker) =
        perform-Kept env Module.attacker_node IsForgery (transmit-forgery env.core) (λ timer p. p)
          effects (record net { attacker = some node }) forgeries quiet.tapped quiet.expected in
      record {
        tapped = tapped;
        expected = expected;
        poses = (node, attacker, unanswered);
        hardened =
            λ j other found. quiet.hardened j other (ap (λ ds. lookup j ds) (sym drones) ∙ found);
      }

  take_event-IsQuiet :
      (e : Event) (now_ms : ℕ) (net net' : Network)
      → IsQuiet net
      → IsExpected e
      → IsRefused net e
      → take_event env puf first_field turns e now_ms net ≡ some net'
      → IsQuiet net'
  unfolding take_event
  take_event-IsQuiet (Event.expires id timer) now_ms net net' quiet start refused e =
      elim (Option-cases (lookup id net.drones)) [
        | inl f ↦ (let same : net ≡ net' = ground (arith, e, f) in subst IsQuiet same quiet)
        | inr (node, f) ↦
            (let kept = handle_timer-Requests env (puf id) now_ms node (quiet.hardened id node f) in
              elim (Option-cases (handle_timer env (puf id) Timer.start_phase2 now_ms node)) [
                | inl g ↦ absurd (ground (arith, start, e, f, g))
                | inr ((node', effects), g) ↦
                    (let both : Requests env (some (node', effects)) =
                        subst (Requests env) g kept in
                      let same : perform env (Module.uav id) effects
                            (record net { drones = insert id node' net.drones })
                          ≡ net' =
                        ground (arith, start, e, f, g) in
                      subst IsQuiet same (drone-IsQuiet id node' effects net quiet both.0 both.1))
              ])
      ]
  take_event-IsQuiet (Event.arrives d) now_ms net net' quiet (inl (to, type)) refused e =
      let (node, f, unanswered) = quiet.poses in
      let kept =
        handle_message-Forges env first_field turns d.message now_ms node unanswered type in
      elim (Option-cases (Observe.handle_message env first_field turns d.message now_ms node)) [
        | inl g ↦ absurd (ground (arith, to, e, f, g))
        | inr ((node', effects), g) ↦
            (let both : Forges env first_field turns (some (node', effects)) =
                subst (Forges env first_field turns) g kept in
              let same : perform env Module.attacker_node effects
                    (record net { attacker = some node' })
                  ≡ net' =
                ground (arith, to, e, f, g) in
              subst IsQuiet same (attacker-IsQuiet node' effects net quiet both.0 both.1))
      ]
  take_event-IsQuiet (Event.arrives d) now_ms net net' quiet (inr (id, to, type)) refused e =
      elim (Option-cases (lookup id net.drones)) [
        | inl f ↦ (let same : net ≡ net' = ground (arith, to, e, f) in subst IsQuiet same quiet)
        | inr (node, f) ↦
            (let kept =
                handle_message-Requests env d.message now_ms node (quiet.hardened id node f) type
                  (refused id node to f) in
              elim (Option-cases (Events.handle_message env d.message now_ms node)) [
                | inl g ↦ absurd (ground (arith, to, e, f, g))
                | inr ((node', effects), g) ↦
                    (let both : Requests env (some (node', effects)) =
                        subst (Requests env) g kept in
                      let same : perform env (Module.uav id) effects
                            (record net { drones = insert id node' net.drones })
                          ≡ net' =
                        ground (arith, to, e, f, g) in
                      subst IsQuiet same (drone-IsQuiet id node' effects net quiet both.0 both.1))
              ])
      ]

  -- From the experiment before any reply, with drones that authenticate the ground station, whatever
  -- order and times the events are taken in: as long as no forged M2 verifies at a drone, the attacker
  -- counts no reply, and only requests on their way to it, forgeries and starts of Phase 2 are pending.
  pub impersonation_unanswered :
      (start net : Network) → IsQuiet start → Unforged start net → IsQuiet net
  impersonation_unanswered start net quiet here = quiet
  impersonation_unanswered start net quiet (later before after e now_ms run pending refused taken) =
      let last = impersonation_unanswered start _ quiet run in
      let (expected, others) =
        All-split IsExpected before after e (subst (All IsExpected) pending last.expected) in
      take_event-IsQuiet e now_ms _ net
        (record {
          tapped = last.tapped;
          expected = others;
          poses = last.poses;
          hardened = last.hardened;
        })
        expected refused taken

-- ===== src/Nodes/Medium/Routes.antt =====
-- nodes/WirelessMedium.cc: where a message goes.
use uav_omnet.Base.{
  ◌≡◌, ◌⊎◌, inl, inr, refl, ◌∙◌, Option-cases, Bool-cases, eq_ℤ_refl, eq_ℤ_iff, if◌then◌else◌, Bool,
  true, false, not, some, List, [], ◌∷◌, ◌||◌, arith,
}
use uav_omnet.Core.{CoreLib}
use uav_omnet.Nodes.Carrier.{SimMessage, Module, eq_module, Delivery}
use uav_omnet.Nodes.Medium.{
  WirelessMedium, transmit, route, traced, copies, intercepts, is_attacker,
}

-- What a node is handed.
unfoldable pub handed_to : Module → List Delivery → List SimMessage
handed_to node [] = []
handed_to node (d ∷ ds) =
    let rest = handed_to node ds in if eq_module d.to node then d.message ∷ rest else rest

eq_module_refl : (node : Module) → eq_module node node ≡ true
eq_module_refl Module.ground_station = refl
eq_module_refl Module.attacker_node = refl
eq_module_refl (Module.uav id) = eq_ℤ_refl id

eq_module_comm : (a b : Module) → eq_module a b ≡ eq_module b a
eq_module_comm Module.ground_station Module.ground_station = refl
eq_module_comm Module.ground_station Module.attacker_node = refl
eq_module_comm Module.ground_station (Module.uav j) = refl
eq_module_comm Module.attacker_node Module.ground_station = refl
eq_module_comm Module.attacker_node Module.attacker_node = refl
eq_module_comm Module.attacker_node (Module.uav j) = refl
eq_module_comm (Module.uav i) Module.ground_station = refl
eq_module_comm (Module.uav i) Module.attacker_node = refl
eq_module_comm (Module.uav i) (Module.uav j) = ground (arith, eq_ℤ_iff i j, eq_ℤ_iff j i)

module _ (c : CoreLib) (msg : SimMessage) (dest : Module) where
  -- A transmission of which the trace tells the truth.
  abbrev pub IsTraced : WirelessMedium → WirelessMedium × List Delivery → Type 0
  IsTraced medium after =
      (delivered : Bool) × (after.0 ≡ traced c msg delivered medium)
      × (handed_to dest after.1 ≡ (if delivered then msg ∷ [] else []))
      × ((delivered ≡ true)
          ⊎ ((tap : Module) × (medium.attacker ≡ some tap) × (handed_to tap after.1 ≡ msg ∷ [])))

  forward_lem :
      (medium : WirelessMedium)
      → IsTraced medium (traced c msg true medium, (record { message = msg; to = dest }) ∷ [])
  unfolding handed_to
  forward_lem medium = (true, refl, ground (arith, eq_module_refl dest), inl refl)

  route_lem :
      (medium : WirelessMedium) (tap : Module)
      → medium.attacker ≡ some tap
      → eq_module dest tap ≡ false
      → IsTraced medium (route c msg dest tap medium)
  unfolding route handed_to
  route_lem medium tap e apart =
      let self = eq_module_refl dest in
      let tapped = eq_module_refl tap in
      let other : eq_module tap dest ≡ false = eq_module_comm tap dest ∙ apart in
      elim (Bool-cases (copies medium.attack_mode)) [
        | inl copied ↦ (true, ground arith, ground arith, inl refl)
        | inr kept ↦ elim (Bool-cases (intercepts medium.attack_mode msg.payload)) [
          | inl taken ↦ (false, ground arith, ground arith, inr (tap, e, ground arith))
          | inr passed ↦ (true, ground arith, ground arith, inl refl)
        ]
      ]

  -- For a destination that is no attacker the trace is true: it gets one row, and the destination gets
  -- the message, unaltered and once, exactly if the row says that it was delivered; otherwise the
  -- attacker gets it.
  pub transmit_lem :
      (source : Module) (medium : WirelessMedium)
      → is_attacker dest medium.attacker ≡ false
      → IsTraced medium (transmit c msg source (some dest) medium)
  unfolding transmit
  transmit_lem source medium apart =
      let after = transmit c msg source (some dest) medium in
      let forwarded : WirelessMedium × List Delivery =
        (traced c msg true medium, (record { message = msg; to = dest }) ∷ []) in
      elim (Option-cases medium.attacker) [
        | inl e ↦ (let same : after ≡ forwarded = ground arith in rw same (forward_lem medium))
        | inr (tap, e) ↦
            elim (Bool-cases (
              (msg.injected_by_attacker || is_attacker source medium.attacker)
              || not medium.tap_enabled)) [
                | inl direct ↦
                    (let same : after ≡ forwarded = ground arith in rw same (forward_lem medium))
                | inr tapped ↦
                    (let same : after ≡ route c msg dest tap medium = ground arith in
                      rw same (route_lem medium tap e (ground arith)))
              ]
      ]

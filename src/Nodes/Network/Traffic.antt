-- ===== src/Nodes/Network/Traffic.antt =====
-- nodes/WirelessMedium.cc in the attack mode "impersonate": what is on its way when drones send nothing but
-- requests and the attacker nothing but forgeries.
use uav_omnet.Base.{
  ◌≡◌, refl, ◌⊎◌, inl, inr, Bool, true, false, Option, some, List, [], ◌∷◌, ◌++◌, ℤ, arith,
}
use uav_omnet.Core.{CoreLib}
use uav_omnet.Wire.{MessageType}
use uav_omnet.Protocol.State.{Env}
use uav_omnet.Nodes.Carrier.{SimMessage, Module, Delivery, Timer, Effect, AttackMode}
use uav_omnet.Nodes.Medium.{WirelessMedium, is_drone_id, transmit, traced, route}
use uav_omnet.Nodes.Network.{Event, Network, all_arrive, perform}

-- How the medium is configured.
pub record IsTapped (medium : WirelessMedium) : Type 0 where
  pub tapped : medium.tap_enabled ≡ true
  pub mode : medium.attack_mode ≡ AttackMode.impersonate
  pub registered : medium.attacker ≡ some Module.attacker_node

-- What can be on its way: an M1 to the attacker, and an M2 to a drone; and the start of Phase 2.
abbrev pub IsExpected : Event → Type 0
IsExpected (Event.arrives d) =
    ((d.to ≡ Module.attacker_node) × (d.message.payload.type ≡ MessageType.p2_m1_auth_request))
    ⊎ ((id : ℤ) × (d.to ≡ Module.uav id) × (d.message.payload.type ≡ MessageType.p2_m2_gs_response))
IsExpected (Event.expires id timer) = timer ≡ Timer.start_phase2

abbrev pub All {ℓ κ} : {A : Type ℓ} → (A → Type κ) → List A → Type κ
All P [] = Unit
All P (x ∷ xs) = P x × All P xs

pub All-append {ℓ κ} :
    {A : Type ℓ} (P : A → Type κ) (xs ys : List A) → All P xs → All P ys → All P (xs ++ ys)
All-append P [] ys a b = b
All-append P (x ∷ xs) ys (first, rest) b = (first, All-append P xs ys rest b)

-- What the attacker and a drone send in the experiment.
abbrev pub IsForgery : Effect → Type 0
IsForgery (Effect.transmits msg dest) =
    (msg.injected_by_attacker ≡ true)
    × (msg.payload.type ≡ MessageType.p2_m2_gs_response)
    × ((id : ℤ) × (dest ≡ some (Module.uav id)))
IsForgery (Effect.schedules timer) = true ≡ false

abbrev pub IsRequest : Effect → Type 0
IsRequest (Effect.transmits msg dest) =
    (msg.injected_by_attacker ≡ false)
    × (msg.payload.type ≡ MessageType.p2_m1_auth_request)
    × (is_drone_id msg.payload.sender_id ≡ true)
    × (dest ≡ some Module.ground_station)
IsRequest (Effect.schedules timer) = true ≡ false

module _ (c : CoreLib) where
  traced-IsTapped :
      (msg : SimMessage) (delivered : Bool) (medium : WirelessMedium)
      → IsTapped medium
      → IsTapped (traced c msg delivered medium)
  unfolding traced
  traced-IsTapped msg delivered medium h = record {
    tapped = h.tapped;
    mode = h.mode;
    registered = h.registered;
  }

  -- What a transmission in the experiment keeps.
  abbrev pub Kept : WirelessMedium × List Delivery → Type 0
  Kept after = IsTapped after.0 × All IsExpected (all_arrive after.1)

  -- The medium hands a forgery to the drone, and a request to the attacker.
  pub transmit-forgery :
      (msg : SimMessage) (dest : Option Module) (medium : WirelessMedium)
      → IsForgery (Effect.transmits msg dest)
      → IsTapped medium
      → Kept (transmit c msg Module.attacker_node dest medium)
  unfolding transmit
  transmit-forgery msg dest medium (injected, type, (id, e)) tapped =
      let after : WirelessMedium × List Delivery =
        (traced c msg true medium, (record { message = msg; to = Module.uav id }) ∷ []) in
      let same : transmit c msg Module.attacker_node dest medium ≡ after =
        ground (arith, injected, e) in
      rw same (traced-IsTapped msg true medium tapped, (inr (id, refl, type), tt))

  pub transmit-request :
      (drone : ℤ) (msg : SimMessage) (dest : Option Module) (medium : WirelessMedium)
      → IsRequest (Effect.transmits msg dest)
      → IsTapped medium
      → Kept (transmit c msg (Module.uav drone) dest medium)
  unfolding transmit route
  transmit-request drone msg dest medium (own, type, sender, e) tapped =
      let after : WirelessMedium × List Delivery =
        (traced c msg false medium, (record { message = msg; to = Module.attacker_node }) ∷ []) in
      let same : transmit c msg (Module.uav drone) dest medium ≡ after =
        ground (arith, own, type, sender, e, tapped.tapped, tapped.mode, tapped.registered) in
      rw same (traced-IsTapped msg false medium tapped, (inl (refl, type), tt))

module _ (env : Env) (source : Module) (P : Effect → Type 0)
    (sends : (msg : SimMessage) (dest : Option Module) (medium : WirelessMedium)
      → P (Effect.transmits msg dest)
      → IsTapped medium
      → Kept env.core (transmit env.core msg source dest medium))
    (waits : (timer : Timer) → P (Effect.schedules timer) → true ≡ false) where
  -- Effects of one kind keep the experiment as it is.
  pub perform-Kept :
      (effects : List Effect) (net : Network)
      → All P effects
      → IsTapped net.medium
      → All IsExpected net.pending
      → IsTapped (perform env source effects net).medium
        × All IsExpected (perform env source effects net).pending
        × ((perform env source effects net).drones ≡ net.drones)
        × ((perform env source effects net).attacker ≡ net.attacker)
  unfolding perform
  perform-Kept [] net all tapped expected = (tapped, expected, refl, refl)
  perform-Kept (Effect.schedules timer ∷ rest) net (p, all) tapped expected =
      let e = waits timer p in absurd (ground (arith, e))
  perform-Kept (Effect.transmits msg dest ∷ rest) net (p, all) tapped expected =
      let sent = transmit env.core msg source dest net.medium in
      let (still, more) = sends msg dest net.medium p tapped in
      perform-Kept rest (record net { medium = sent.0; pending = net.pending ++ all_arrive sent.1 })
        all still (All-append IsExpected net.pending (all_arrive sent.1) expected more)

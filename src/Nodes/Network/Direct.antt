-- ===== src/Nodes/Network/Direct.antt =====
-- nodes/*.cc without an attacker: one event is pending at a time, and each node's event puts the next one
-- there.
use uav_omnet.Base.{
  ℕ, ◌≡◌, refl, ap, ◌∙◌, true, false, Option, none, some, List, [], ◌∷◌, ◌++◌, ℤ, lookup, insert,
  lookup-insert_self, arith,
}
use uav_omnet.Core.{CoreLib, FieldId, FieldMap}
use uav_omnet.Protocol.State.{Env, PufModel}
use uav_omnet.Nodes.Carrier.{SimMessage, Module, Timer, Effect}
use uav_omnet.Nodes.Medium.{WirelessMedium, transmit, traced}
use uav_omnet.Nodes.Station.{GroundStationNode}
use uav_omnet.Nodes.Station
use uav_omnet.Nodes.Drone.{UavNode}
use uav_omnet.Nodes.Drone.Events
use uav_omnet.Nodes.Drone.Events.{handle_timer}
use uav_omnet.Nodes.Network.{Event, Network, perform, after_station, after_drone, take_event}

-- A network whose medium is not tapped, with these nodes and these events.
pub record IsStage (net : Network) (id : ℤ) (s : GroundStationNode) (d : UavNode)
    (events : List Event) : Type 0 where
  pub direct : net.medium.tap_enabled ≡ false
  pub unwatched : net.medium.attacker ≡ none
  pub station : net.station ≡ s
  pub drone : lookup id net.drones ≡ some d
  pub pending : net.pending ≡ events

abbrev pub arrival : SimMessage → Module → Event
arrival msg dest = Event.arrives (record { message = msg; to = dest })

transmit-direct :
    (c : CoreLib) (msg : SimMessage) (source dest : Module) (medium : WirelessMedium)
    → medium.tap_enabled ≡ false
    → medium.attacker ≡ none
    → transmit c msg source (some dest) medium
      ≡ (traced c msg true medium, (record { message = msg; to = dest }) ∷ [])
unfolding transmit
transmit-direct c msg source dest medium direct unwatched = ground (arith, direct, unwatched)

module _ (env : Env) where
  -- One message that is sent is the next event.
  perform-IsStage :
      (source dest : Module) (msg : SimMessage) (net : Network) (id : ℤ) (s : GroundStationNode)
      (d : UavNode)
      → IsStage net id s d []
      → IsStage
          (perform env source (Effect.transmits msg (some dest) ∷ []) net)
          id
          s
          d
          (arrival msg dest ∷ [])
  unfolding perform traced
  perform-IsStage source dest msg net id s d h =
      let sent = transmit-direct env.core msg source dest net.medium h.direct h.unwatched in
      rw sent (record {
        direct = h.direct;
        unwatched = h.unwatched;
        station = h.station;
        drone = h.drone;
        pending = ap (λ p. p ++ (arrival msg dest ∷ [])) h.pending;
      })

  module _ (puf : ℤ → PufModel) (first_field : FieldMap → Option FieldId) (turns : ℕ) where
    -- The one pending event is taken at a time, and what it leads to.
    abbrev pub Advances :
        Network → Event → ℕ → ℤ → GroundStationNode → UavNode → List Event → Type 0
    Advances net e now_ms id s d pending =
        (net' : Network) × (net.pending ≡ e ∷ [])
        × (take_event env puf first_field turns e now_ms (record net { pending = [] }) ≡ some net')
        × IsStage net' id s d pending

    -- An event is what the node makes of it.
    pub timer_taken :
        (net : Network) (id : ℤ) (d : UavNode) (timer : Timer) (now_ms : ℕ)
        (r : UavNode × List Effect)
        → lookup id net.drones ≡ some d
        → handle_timer env (puf id) timer now_ms d ≡ some r
        → take_event env puf first_field turns (Event.expires id timer) now_ms net
          ≡ after_drone env id net (some r)
    unfolding take_event
    timer_taken net id d timer now_ms r found run =
        let step : (o : Option UavNode)
            → o ≡ some d
            → (elim o as (λ o. Option Network) [
              | none ↦ some net
              | some node ↦ after_drone env id net (handle_timer env (puf id) timer now_ms node)
            ])
              ≡ after_drone env id net (some r) =
          λ o e. rw e (ap (after_drone env id net) run) in
        step (lookup id net.drones) found

    pub drone_taken :
        (net : Network) (id : ℤ) (d : UavNode) (msg : SimMessage) (now_ms : ℕ)
        (r : UavNode × List Effect)
        → lookup id net.drones ≡ some d
        → Events.handle_message env msg now_ms d ≡ some r
        → take_event env puf first_field turns (arrival msg (Module.uav id)) now_ms net
          ≡ after_drone env id net (some r)
    unfolding take_event
    drone_taken net id d msg now_ms r found run =
        let step : (o : Option UavNode)
            → o ≡ some d
            → (elim o as (λ o. Option Network) [
              | none ↦ some net
              | some node ↦ after_drone env id net (Events.handle_message env msg now_ms node)
            ])
              ≡ after_drone env id net (some r) =
          λ o e. rw e (ap (after_drone env id net) run) in
        step (lookup id net.drones) found

    pub station_taken :
        (net : Network) (s : GroundStationNode) (msg : SimMessage) (now_ms : ℕ)
        (r : GroundStationNode × List Effect)
        → net.station ≡ s
        → Station.handle_message env msg now_ms s ≡ some r
        → take_event env puf first_field turns (arrival msg Module.ground_station) now_ms net
          ≡ after_station env net (some r)
    unfolding take_event
    station_taken net s msg now_ms r e run =
        ap (λ n. after_station env net (Station.handle_message env msg now_ms n)) e
        ∙ ap (after_station env net) run

    -- An event of the drone that ends in one transmission.
    pub drone-Advances :
        (net : Network) (id : ℤ) (s : GroundStationNode) (d d' : UavNode) (e : Event) (now_ms : ℕ)
        (msg : SimMessage) (dest : Module)
        → IsStage net id s d (e ∷ [])
        → take_event env puf first_field turns e now_ms (record net { pending = [] })
          ≡ after_drone env id
              (record net { pending = [] })
              (some (d', Effect.transmits msg (some dest) ∷ []))
        → Advances net e now_ms id s d' (arrival msg dest ∷ [])
    drone-Advances net id s d d' e now_ms msg dest h done =
        let before = record net { pending = []; drones = insert id d' net.drones } in
        let after = perform env (Module.uav id) (Effect.transmits msg (some dest) ∷ []) before in
        (
          after,
          h.pending,
          done,
          perform-IsStage (Module.uav id) dest msg before id s d' (record {
            direct = h.direct;
            unwatched = h.unwatched;
            station = h.station;
            drone = lookup-insert_self id d' net.drones;
            pending = refl;
          }),
        )

    -- An event of the ground station that ends in one transmission.
    pub station-Advances :
        (net : Network) (id : ℤ) (s s' : GroundStationNode) (d : UavNode) (e : Event) (now_ms : ℕ)
        (msg : SimMessage) (dest : Module)
        → IsStage net id s d (e ∷ [])
        → take_event env puf first_field turns e now_ms (record net { pending = [] })
          ≡ after_station env
              (record net { pending = [] })
              (some (s', Effect.transmits msg (some dest) ∷ []))
        → Advances net e now_ms id s' d (arrival msg dest ∷ [])
    station-Advances net id s s' d e now_ms msg dest h done =
        let before = record net { pending = []; station = s' } in
        let after =
          perform env Module.ground_station (Effect.transmits msg (some dest) ∷ []) before in
        (
          after,
          h.pending,
          done,
          perform-IsStage Module.ground_station dest msg before id s' d (record {
            direct = h.direct;
            unwatched = h.unwatched;
            station = refl;
            drone = h.drone;
            pending = refl;
          }),
        )

    -- An event of the drone that ends in a self-message.
    pub drone_waits :
        (net : Network) (id : ℤ) (s : GroundStationNode) (d d' : UavNode) (e : Event) (now_ms : ℕ)
        (timer : Timer)
        → IsStage net id s d (e ∷ [])
        → take_event env puf first_field turns e now_ms (record net { pending = [] })
          ≡ after_drone env id
              (record net { pending = [] })
              (some (d', Effect.schedules timer ∷ []))
        → Advances net e now_ms id s d' (Event.expires id timer ∷ [])
    unfolding perform
    drone_waits net id s d d' e now_ms timer h done = (
      record net { pending = Event.expires id timer ∷ []; drones = insert id d' net.drones },
      h.pending,
      done,
      record {
        direct = h.direct;
        unwatched = h.unwatched;
        station = h.station;
        drone = lookup-insert_self id d' net.drones;
        pending = refl;
      },
    )

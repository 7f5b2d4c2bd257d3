-- ===== src/Nodes/Network.antt =====
-- The network of nodes/*.cc: nodes, medium and attacker, with the events that the kernel holds. In which
-- order the kernel takes the events, and at what times, is left open.
pub mod Traffic
pub mod Direct
pub mod Authentication
pub mod Impersonation
use uav_omnet.Base.{
  ℕ, ◌≡◌, Bool, true, false, Option, none, some, List, [], ◌∷◌, ◌++◌, ℤ, pos, negsuc, StdMap,
  lookup, insert,
}
use uav_omnet.Core.{FieldId, FieldMap}
use uav_omnet.Protocol.State.{Env, PufModel}
use uav_omnet.Nodes.Carrier.{SimMessage, Module, Delivery, Timer, Effect}
use uav_omnet.Nodes.Medium.{WirelessMedium, transmit}
use uav_omnet.Nodes.Station
use uav_omnet.Nodes.Station.{GroundStationNode}
use uav_omnet.Nodes.Drone.{UavNode}
use uav_omnet.Nodes.Drone.Events
use uav_omnet.Nodes.Drone.Events.{handle_timer}
use uav_omnet.Nodes.Attacker.{AttackerNode}
use uav_omnet.Nodes.Attacker.Observe

pub data Event : Type 0 where
  arrives : Delivery → Event
  expires : ℤ → Timer → Event

pub record Network : Type 0 where
  pub medium : WirelessMedium
  pub station : GroundStationNode
  pub drones : StdMap UavNode
  pub attacker : Option AttackerNode
  pub pending : List Event

abbrev pub all_arrive : List Delivery → List Event
all_arrive [] = []
all_arrive (d ∷ ds) = Event.arrives d ∷ all_arrive ds

-- The drone whose timers an effect schedules.
abbrev pub id_of : Module → ℤ
id_of (Module.uav id) = id
id_of node = negsuc 0

module _ (env : Env) where
  -- The effects of a module's event, in their order.
  unfoldable pub perform : Module → List Effect → Network → Network
  perform source [] net = net
  perform source (Effect.transmits msg dest ∷ rest) net =
      let (medium', sent) = transmit env.core msg source dest net.medium in
      perform source rest
        (record net { medium = medium'; pending = net.pending ++ all_arrive sent })
  perform source (Effect.schedules timer ∷ rest) net =
      perform source rest
        (record net { pending = net.pending ++ (Event.expires (id_of source) timer ∷ []) })

  abbrev pub after_station : Network → Option (GroundStationNode × List Effect) → Option Network
  after_station net none = none
  after_station net (some (node, effects)) =
      some (perform Module.ground_station effects (record net { station = node }))

  abbrev pub after_drone : ℤ → Network → Option (UavNode × List Effect) → Option Network
  after_drone id net none = none
  after_drone id net (some (node, effects)) =
      some (perform (Module.uav id) effects (record net { drones = insert id node net.drones }))

  abbrev pub after_attacker : Network → Option (AttackerNode × List Effect) → Option Network
  after_attacker net none = none
  after_attacker net (some (node, effects)) =
      some (perform Module.attacker_node effects (record net { attacker = some node }))

  module _ (puf : ℤ → PufModel) (first_field : FieldMap → Option FieldId) (turns : ℕ) where
    -- An event that was taken from those pending; `none` is an exception, which ends the simulation.
    unfoldable pub take_event : Event → ℕ → Network → Option Network
    take_event (Event.arrives d) now_ms net = elim d.to [
      | Module.ground_station ↦
          after_station net (Station.handle_message env d.message now_ms net.station)
      | Module.attacker_node ↦ elim net.attacker [
        | none ↦ some net
        | some node ↦
            after_attacker net (Observe.handle_message env first_field turns d.message now_ms node)
      ]
      | Module.uav id ↦ elim (lookup id net.drones) [
        | none ↦ some net
        | some node ↦ after_drone id net (Events.handle_message env d.message now_ms node)
      ]
    ]
    take_event (Event.expires id timer) now_ms net = elim (lookup id net.drones) [
      | none ↦ some net
      | some node ↦ after_drone id net (handle_timer env (puf id) timer now_ms node)
    ]

    -- A run in which one event is pending at a time: it is taken at the first of these times, and so on
    -- to the last.
    pub data Alone : Network → List ℕ → Network → Type 0 where
      here : {net : Network} → Alone net [] net
      taken :
          {net next end : Network} {times : List ℕ} (e : Event) (now_ms : ℕ)
          → net.pending ≡ e ∷ []
          → take_event e now_ms (record net { pending = [] }) ≡ some next
          → Alone next times end
          → Alone net (now_ms ∷ times) end

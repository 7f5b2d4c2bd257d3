-- ===== src/Nodes/Carrier.antt =====
-- nodes/SimMessage.h, and what a node hands to the simulation kernel. Times, delays and timings are
-- measurements and left out.
use Prim.Native.String.{String}
use text.Mathlib.Text.{◌==◌ as str_eq}
use uav_omnet.Base.{
  ℕ, Bool, true, false, Option, none, some, ℤ, pos, negsuc, if◌then◌else◌, ltb, eq_ℤ,
}
use uav_omnet.Wire.{Message}

pub record SimMessage : Type 0 where
  pub payload : Message
  pub injected_by_attacker : Bool
  pub tampered : Bool

-- A new carrier for a payload.
abbrev pub carrying : Message → SimMessage
carrying payload = record { payload = payload; injected_by_attacker = false; tampered = false }

-- The submodules of the network.
pub data Module : Type 0 where
  ground_station attacker_node : Module
  uav : ℤ → Module

abbrev pub eq_module : Module → Module → Bool
eq_module Module.ground_station Module.ground_station = true
eq_module Module.attacker_node Module.attacker_node = true
eq_module (Module.uav i) (Module.uav j) = eq_ℤ i j
eq_module a b = false

-- `sendDirect`: a message that the kernel will hand to a module.
pub record Delivery : Type 0 where
  pub message : SimMessage
  pub to : Module

-- What an event of a node leads to, in its order: a call of the medium's `transmit`, whose destination
-- is `none` where it is a null pointer, or a self-message.
pub data Timer : Type 0 where
  start_phase2 start_phase3 : Timer

pub data Effect : Type 0 where
  transmits : SimMessage → Option Module → Effect
  schedules : Timer → Effect

-- `getSubmodule("uav", id)` in a network of `num_uavs` drones; `none` is a null pointer.
unfoldable pub uav_module : ℕ → ℤ → Option Module
uav_module num_uavs (pos n) = if ltb n num_uavs then some (Module.uav (pos n)) else none
uav_module num_uavs (negsuc n) = none

-- The values of the parameter `attackMode` that the program compares with, in the medium and in the
-- attacker; `other` is any other text.
pub data AttackMode : Type 0 where
  eavesdrop credsniff impersonate gsimpersonate mitm tamper replay other : AttackMode

unfoldable pub attack_mode_of : String → AttackMode
attack_mode_of name =
    if str_eq name "eavesdrop"
    then AttackMode.eavesdrop
    else if str_eq name "credsniff"
    then AttackMode.credsniff
    else if str_eq name "impersonate"
    then AttackMode.impersonate
    else if str_eq name "gsimpersonate"
    then AttackMode.gsimpersonate
    else if str_eq name "mitm"
    then AttackMode.mitm
    else if str_eq name "tamper"
    then AttackMode.tamper
    else if str_eq name "replay"
    then AttackMode.replay
    else AttackMode.other

-- ===== src/Nodes/Medium.antt =====
-- nodes/WirelessMedium.h and nodes/WirelessMedium.cc: the one transmission path, with the places where
-- an attacker stands. The delay of a hop is a parameter of the kernel's and left out.
pub mod Routes
use Prim.Native.String.{String}
use uav_omnet.Base.{
  ℕ, Bool, true, false, not, Option, none, some, List, [], ◌∷◌, ◌++◌, ◌&&◌, ◌||◌, ltb,
  if◌then◌else◌, ℤ, pos, negsuc,
}
use uav_omnet.Core.{CoreLib}
use uav_omnet.Wire.{Message, MessageType, type_value, eq_type, message_label}
use uav_omnet.Wire
use uav_omnet.Nodes.Carrier.{SimMessage, Module, eq_module, Delivery, AttackMode}

pub record TraceRow : Type 0 where
  pub phase : String
  pub label : String
  pub msg_type_code : ℕ
  pub src_id : ℤ
  pub dst_id : ℤ
  pub wire_bytes : ℕ
  pub delivered : Bool
  pub dropped : Bool
  pub tampered : Bool
  pub injected : Bool

pub record WirelessMedium : Type 0 where
  pub tap_enabled : Bool
  pub attack_mode : AttackMode
  pub attacker : Option Module
  pub trace : List TraceRow

-- `registerAttacker`.
unfoldable pub register_attacker : Module → WirelessMedium → WirelessMedium
register_attacker node medium = record medium { attacker = some node }

unfoldable pub phase_of : ℕ → String
phase_of code =
    if ltb code 200
    then "phase1"
    else if ltb code 300
    then "phase2"
    else if ltb code 400
    then "phase3"
    else "baseline_sig_auth"

-- `senderId >= 0`.
abbrev pub is_drone_id : ℤ → Bool
is_drone_id (pos n) = true
is_drone_id (negsuc n) = false

-- `source == attacker_`.
abbrev pub is_attacker : Module → Option Module → Bool
is_attacker source none = false
is_attacker source (some node) = eq_module source node

-- The attack modes in which the medium sends a copy to the attacker.
abbrev pub copies : AttackMode → Bool
copies AttackMode.eavesdrop = true
copies AttackMode.credsniff = true
copies mode = false

-- Those in which the attacker gets the message instead of its addressee: every message, or the M1 and
-- M3 of a drone.
abbrev pub intercepts : AttackMode → Message → Bool
intercepts AttackMode.impersonate payload =
    is_drone_id payload.sender_id
    && (eq_type payload.type MessageType.p2_m1_auth_request
        || eq_type payload.type MessageType.p2_m3_uav_confirm)
intercepts AttackMode.mitm payload = true
intercepts AttackMode.tamper payload = true
intercepts mode payload = false

module _ (c : CoreLib) where
  unfoldable pub row_of : SimMessage → Bool → TraceRow
  row_of msg delivered = record {
    phase = phase_of (type_value msg.payload.type);
    label = message_label msg.payload.type;
    msg_type_code = type_value msg.payload.type;
    src_id = msg.payload.sender_id;
    dst_id = msg.payload.receiver_id;
    wire_bytes = Wire.wire_bytes c msg.payload;
    delivered = delivered;
    dropped = false;
    tampered = msg.tampered;
    injected = msg.injected_by_attacker;
  }

  -- `trace_.push_back(row)`.
  unfoldable pub traced : SimMessage → Bool → WirelessMedium → WirelessMedium
  traced msg delivered medium = record medium {
    trace = medium.trace ++ (row_of msg delivered ∷ []);
  }

  -- What the medium does with a message on the tapped path.
  unfoldable pub route :
      SimMessage → Module → Module → WirelessMedium → WirelessMedium × List Delivery
  route msg dest tap medium =
      let forward : Delivery = record { message = msg; to = dest } in
      let divert : Delivery = record { message = msg; to = tap } in
      if copies medium.attack_mode
      then (traced msg true medium, divert ∷ forward ∷ [])
      else if intercepts medium.attack_mode msg.payload
      then (traced msg false medium, divert ∷ [])
      else (traced msg true medium, forward ∷ [])

  -- `dest` is `none` where it is a null pointer.
  unfoldable pub transmit :
      SimMessage → Module → Option Module → WirelessMedium → WirelessMedium × List Delivery
  transmit msg source none medium = (medium, [])
  transmit msg source (some dest) medium =
      let delivery : Delivery = record { message = msg; to = dest } in
      let forward : WirelessMedium × List Delivery = (traced msg true medium, delivery ∷ []) in
      if msg.injected_by_attacker || is_attacker source medium.attacker
      then forward
      else if not medium.tap_enabled
      then forward
      else elim medium.attacker [ none ↦ forward | some tap ↦ route msg dest tap medium ]

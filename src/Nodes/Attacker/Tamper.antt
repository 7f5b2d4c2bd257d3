-- ===== src/Nodes/Attacker/Tamper.antt =====
-- nodes/AttackerNode.cc, `forwardTampered`, against the handlers of Protocol.cc.
use Prim.Native.Nat.{bit_xor}
use mathlib.Core.Path.{subst}
use uav_omnet.Base.{
  StdMap, ℕ, ◌<◌, ◌≡◌, ◌≢◌, ap, sym, ◌∙◌, true, false, Option, some, Option-cases, inl, inr, [],
  ◌∷◌, Bytes, is_empty, length, get_or, get_or-set, arith,
}
use uav_omnet.Base.Words.{bit_xor-one}
use uav_omnet.Core.{FieldId, FieldMap, of_list}
use uav_omnet.Wire.{MessageType, mac_input, Message, set_in}
use uav_omnet.Crypto.Suite.{CryptoSuite}
use uav_omnet.Crypto.Drbg.Uniform.{uniform, uniform-below}
use uav_omnet.Protocol.Flow.{done}
use uav_omnet.Protocol.State.{Env, DeviceRecord, GroundStation}
use uav_omnet.Protocol.GroundStation.{or_no_device, find_by_tid, handle_m1}
use uav_omnet.Protocol.Handshake.Terms.{auth_key_of}
use uav_omnet.Protocol.Safety.Station.{field, handle_m1_authentic}
use uav_omnet.Nodes.Carrier.{SimMessage, Module, Effect}
use uav_omnet.Nodes.Attacker.{AttackerNode, flip_low_bit, victim_field, corrupted, forward_tampered}

-- A key and a string have one authenticator (crypto/Sha3Suite.cc and crypto/SpongentSuite.cc compare
-- with the one that they compute).
abbrev pub IsUnique : CryptoSuite → Type 0
IsUnique suite =
    (key input tag : Bytes) → suite.mac_verify key input tag ≡ true → tag ≡ suite.mac key input

flip_low_bit-changes : (v : Bytes) (place : ℕ) → place < length v → flip_low_bit v place ≢ v
unfolding flip_low_bit
flip_low_bit-changes v place h e =
    bit_xor-one (get_or v place 0)
      (sym (get_or-set v place (bit_xor (get_or v place 0) 1) 0 h) ∙ ap (λ w. get_or w place 0) e)

module _ (env : Env) (first_field : FieldMap → Option FieldId) (turns : ℕ) where
  -- Of a message with an authenticator nothing but the authenticator is altered, and that is.
  forward_tampered-alters :
      (msg altered : SimMessage) (node node' : AttackerNode) (dest : Option Module) (tag : Bytes)
      → msg.payload.fields FieldId.mac_tag ≡ some tag
      → is_empty tag ≡ false
      → forward_tampered env first_field turns msg node
        ≡ some (node', Effect.transmits altered dest ∷ [])
      → (tag' : Bytes) × (tag' ≢ tag)
        × (altered.payload ≡ set_in msg.payload FieldId.mac_tag tag')
        × (altered.tampered ≡ true)
  unfolding forward_tampered victim_field corrupted
  forward_tampered-alters msg altered node node' dest tag present full e =
      elim (Option-cases (uniform env.sha3_256 turns (length tag) node.rng)) [
        | inl f ↦ absurd (ground (arith, e, f))
        | inr ((place, rng), f) ↦
            (let below =
                uniform-below env.sha3_256 turns (length tag) node.rng rng place
                  (ground (arith, full)) f in
              (
                flip_low_bit tag place,
                flip_low_bit-changes tag place below,
                ground (arith, e, f),
                ground (arith, e, f),
              ))
      ]

-- The authenticator of an M1 that a ground station with these devices accepts.
abbrev expected_tag : Env → StdMap DeviceRecord → Message → Bytes
expected_tag env devices m1 =
    env.suite.mac (auth_key_of env (or_no_device (find_by_tid (field m1 FieldId.tid) devices)).mk) (
      mac_input env.core m1.suite_id MessageType.p2_m1_auth_request (
        of_list (
          (FieldId.tid, field m1 FieldId.tid)
          ∷ (FieldId.nonce_1, field m1 FieldId.nonce_1)
          ∷ (FieldId.timestamp, field m1 FieldId.timestamp)
          ∷ (FieldId.epk_a, field m1 FieldId.epk_a)
          ∷ [])))

module _ (env : Env) (unique : IsUnique env.suite) where
  accepted_tag :
      (m1 : Message) (now_ms : ℕ) (gs gs' : GroundStation) (reply : Option Message)
      → handle_m1 env m1 now_ms gs ≡ done reply gs'
      → field m1 FieldId.mac_tag ≡ expected_tag env gs.devices m1
  accepted_tag m1 now_ms gs gs' reply h =
      unique _ _ _ (handle_m1_authentic env m1 now_ms gs gs' reply h).verified

  other_tag_refused :
      (m1 : Message) (tag tag' : Bytes) (now_ms later : ℕ) (gs gs' gs2 gs2' : GroundStation)
      (reply reply' : Option Message)
      → m1.fields FieldId.mac_tag ≡ some tag
      → tag' ≢ tag
      → gs2.devices ≡ gs.devices
      → handle_m1 env m1 now_ms gs ≡ done reply gs'
      → handle_m1 env (set_in m1 FieldId.mac_tag tag') later gs2 ≢ done reply' gs2'
  other_tag_refused m1 tag tag' now_ms later gs gs' gs2 gs2' reply reply' present differs same ok
        ok' =
      let first = accepted_tag m1 now_ms gs gs' reply ok in
      let second = accepted_tag (set_in m1 FieldId.mac_tag tag') later gs2 gs2' reply' ok' in
      let found : field m1 FieldId.mac_tag ≡ tag = ground (arith, present) in
      differs (second ∙ (ap (λ d. expected_tag env d m1) same ∙ (sym first ∙ found)))

  -- Where authenticators are unique: an M1 that the attacker altered on its way is refused by every
  -- ground station with the devices of one that accepts the original.
  pub handle_m1_tampered :
      (first_field : FieldMap → Option FieldId) (turns : ℕ) (msg altered : SimMessage)
      (node node' : AttackerNode) (dest : Option Module) (tag : Bytes) (now_ms later : ℕ)
      (gs gs' gs2 gs2' : GroundStation) (reply reply' : Option Message)
      → msg.payload.fields FieldId.mac_tag ≡ some tag
      → is_empty tag ≡ false
      → forward_tampered env first_field turns msg node
        ≡ some (node', Effect.transmits altered dest ∷ [])
      → handle_m1 env msg.payload now_ms gs ≡ done reply gs'
      → gs2.devices ≡ gs.devices
      → handle_m1 env altered.payload later gs2 ≢ done reply' gs2'
  handle_m1_tampered first_field turns msg altered node node' dest tag now_ms later gs gs' gs2 gs2'
        reply reply' present full sent ok same ok' =
      let (tag', differs, payload, marked) =
        forward_tampered-alters env first_field turns msg altered node node' dest tag present full
          sent in
      other_tag_refused msg.payload tag tag' now_ms later gs gs' gs2 gs2' reply reply' present
        differs same ok (subst (λ p. handle_m1 env p later gs2 ≡ done reply' gs2') payload ok')

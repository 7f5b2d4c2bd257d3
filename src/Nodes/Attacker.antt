-- ===== src/Nodes/Attacker.antt =====
-- nodes/AttackerNode.h and nodes/AttackerNode.cc: the adversary that runs against the protocol.
pub mod Observe
pub mod Verdict
pub mod Tamper
use Prim.Native.Nat.{bit_xor}
use uav_omnet.Base.{
  ◌>>=◌, ℕ, zero, suc, ◌+◌, Bool, true, false, not, Option, none, some, List, [], ◌∷◌, ◌++◌, ◌&&◌,
  ◌||◌, Bytes, is_empty, ◌==◌, ltb, leb, if◌then◌else◌, length, get_or, set, ℤ, pos, negsuc, eq_ℤ,
  StdMap, lookup, insert,
}
use uav_omnet.Core.{FieldId, FieldMap, of_list}
use uav_omnet.Wire.{MessageType, Message, blank, eq_type, has, set_in, encode_timestamp}
use uav_omnet.Crypto.Drbg.{Drbg, bytes}
use uav_omnet.Crypto.Drbg.Uniform.{uniform}
use uav_omnet.Protocol.State.{Env}
use uav_omnet.Nodes.Carrier.{SimMessage, Module, Effect, AttackMode, uav_module}

pub record AttackStat : Type 0 where
  pub attempts : ℕ
  pub accepted : ℕ
  pub rejected : ℕ
  pub replies_elicited : ℕ
  pub credentials_exposed : ℕ
  pub responses_leaked : ℕ

abbrev pub no_stat : AttackStat
no_stat = record {
  attempts = 0;
  accepted = 0;
  rejected = 0;
  replies_elicited = 0;
  credentials_exposed = 0;
  responses_leaked = 0;
}

-- The map `stats_` has no other keys; `none` is an entry that was never made.
pub record AttackStats : Type 0 where
  pub credsniff : Option AttackStat
  pub gsimpersonate : Option AttackStat
  pub replay : Option AttackStat
  pub tamper : Option AttackStat

pub record AttackerNode : Type 0 where
  pub attack_mode : AttackMode
  pub target_uav : ℤ
  pub max_attempts : ℕ
  pub expect_success : Bool
  pub num_uavs : ℕ
  pub rng : Drbg
  pub stats : AttackStats
  pub captured_m1 : StdMap SimMessage
  pub genuine_m2_seen : StdMap (Unit {0})
  pub observed_messages : ℕ
  pub observed_m4 : ℕ
  pub plaintext_credential_bytes : ℕ

-- `stats_[key]`, which enters zeros where there is no entry.
abbrev pub stat_of : Option AttackStat → AttackStat
stat_of none = no_stat
stat_of (some s) = s

-- `attackMode_ == mode`, for the modes that the attacker compares with.
abbrev pub is_gsimpersonate : AttackMode → Bool
is_gsimpersonate AttackMode.gsimpersonate = true
is_gsimpersonate mode = false

abbrev pub is_replay : AttackMode → Bool
is_replay AttackMode.replay = true
is_replay mode = false

abbrev pub owns_delivery : AttackMode → Bool
owns_delivery AttackMode.tamper = true
owns_delivery AttackMode.mitm = true
owns_delivery mode = false

abbrev pub has_seen : ℤ → StdMap (Unit {0}) → Bool
has_seen id seen = elim (lookup id seen) [ none ↦ false | some u ↦ true ]

abbrev pub count_forged : AttackerNode → AttackerNode
count_forged node =
    let s = stat_of node.stats.gsimpersonate in
    record node {
      stats = record node.stats { gsimpersonate = some (record s { attempts = s.attempts + 1 }) };
    }

unfoldable pub inject_replay : SimMessage → AttackerNode → AttackerNode × List Effect
inject_replay captured node =
    let s = stat_of node.stats.replay in
    let entered = record node { stats = record node.stats { replay = some s } } in
    if leb node.max_attempts s.attempts then (entered, []) else (
      record node {
        stats = record node.stats { replay = some (record s { attempts = s.attempts + 1 }) };
      },
      Effect.transmits (record captured { injected_by_attacker = true })
            (some Module.ground_station)
          ∷ [],
    )

-- `v[place] ^= 0x01`.
unfoldable pub flip_low_bit : Bytes → ℕ → Bytes
flip_low_bit v place = set v place (bit_xor (get_or v place 0) 1)

abbrev counted_tamper : AttackerNode → AttackerNode
counted_tamper node =
    let s = stat_of node.stats.tamper in
    record node {
      stats = record node.stats { tamper = some (record s { attempts = s.attempts + 1 }) };
    }

-- The addressee of a message.
unfoldable pub destination : ℕ → ℤ → Option Module
destination num_uavs (negsuc n) = some Module.ground_station
destination num_uavs (pos n) = uav_module num_uavs (pos n)

-- What `first_field` gives is the first key of the map of fields, whose order is that of the
-- enumerators of the byte library; `none` where the map is empty. `turns` is the number of draws that
-- `uniform` may take.
module _ (env : Env) (first_field : FieldMap → Option FieldId) (turns : ℕ) where
  open env use {core, suite, sha3_256}

  -- Whether a package reads like the framing of a plaintext one: a count of peers, and the length of a
  -- credential after the first id. `none` is an exception.
  unfoldable pub looks_plaintext : Bytes → Option Bool
  looks_plaintext blob =
      if ltb 4 (length blob)
      then elim (core.read_u16be blob 0) [
        | none ↦ none
        | some count ↦
            if ltb 0 count && ltb count 64
            then elim (core.read_u16be blob 4) [
              | none ↦ none
              | some first_len ↦ some (first_len == suite.key_len)
            ]
            else some false
      ]
      else some false

  unfoldable pub attempt_credential_recovery : SimMessage → AttackerNode → Option AttackerNode
  attempt_credential_recovery msg node =
      let s = stat_of node.stats.credsniff in
      let tried = record s { attempts = s.attempts + 1 } in
      let refused = record node {
        stats = record node.stats { credsniff = some (record tried { rejected = s.rejected + 1 }) };
      } in
      elim (msg.payload.fields FieldId.cred_pkg) [
        | none ↦ some refused
        | some blob ↦ elim (looks_plaintext blob) [
          | none ↦ none
          | some false ↦ some refused
          | some true ↦ some (record node {
            stats = record node.stats {
              credsniff = some (record tried {
                accepted = s.accepted + 1;
                credentials_exposed = s.credentials_exposed + 1;
              });
            };
            plaintext_credential_bytes = node.plaintext_credential_bytes + length blob;
          })
        ]
      ]

  -- A forged M2: nonce, share and tag are drawn.
  unfoldable pub forged_m2 : ℤ → ℕ → Bytes → Bytes → Bytes → SimMessage
  forged_m2 victim now_ms nonce epk tag = record {
    payload = record blank {
      type = MessageType.p2_m2_gs_response;
      suite_id = suite.suite_id;
      sender_id = negsuc 0;
      receiver_id = victim;
      fields = of_list (
          (FieldId.nonce_2, nonce)
          ∷ (FieldId.timestamp, encode_timestamp core now_ms)
          ∷ (FieldId.epk_b, epk)
          ∷ (FieldId.mac_tag, tag)
          ∷ []);
    };
    injected_by_attacker = true;
    tampered = false;
  }

  -- The loop of `injectForgedM2`, with the rounds left.
  unfoldable pub forge_from :
      ℕ → ℤ → Module → ℕ → AttackerNode → Option (AttackerNode × List Effect)
  forge_from zero victim dest now_ms node = some (node, [])
  forge_from (suc left) victim dest now_ms node =
      if ltb (stat_of node.stats.gsimpersonate).attempts node.max_attempts
      then (do
        nonce ← bytes sha3_256 16 node.rng
        epk ← bytes sha3_256 32 nonce.1
        tag ← bytes sha3_256 suite.mac_len epk.1
        rest ← forge_from left victim dest now_ms (count_forged (record node { rng = tag.1 }))
        some (
          rest.0,
          Effect.transmits (forged_m2 victim now_ms nonce.0 epk.0 tag.0) (some dest) ∷ rest.1,
        ))
      else some (node, [])

  -- The entry of the statistics is made before the guards.
  unfoldable pub inject_forged_m2 : ℤ → ℕ → AttackerNode → Option (AttackerNode × List Effect)
  inject_forged_m2 victim now_ms node =
      let s = stat_of node.stats.gsimpersonate in
      let entered = record node { stats = record node.stats { gsimpersonate = some s } } in
      if leb node.max_attempts s.attempts
      then some (entered, [])
      else elim (uav_module node.num_uavs victim) [
        | none ↦ some (entered, [])
        | some dest ↦ forge_from 8 victim dest now_ms entered
      ]

  -- The field that is altered: the authenticator, or else the first.
  unfoldable pub victim_field : Message → Option FieldId
  victim_field m = if has m FieldId.mac_tag then some FieldId.mac_tag else first_field m.fields

  -- The message with one bit of the field flipped, if it has one; `none` is a draw without end.
  unfoldable pub corrupted :
      FieldId → SimMessage → AttackerNode → Option (SimMessage × AttackerNode)
  corrupted field msg node = elim (msg.payload.fields field) [
    | none ↦ none
    | some v ↦
        if is_empty v then some (msg, node) else elim (uniform sha3_256 turns (length v) node.rng) [
          | none ↦ none
          | some (place, rng) ↦ some (
            record msg {
              payload = set_in msg.payload field (flip_low_bit v place);
              tampered = true;
            },
            counted_tamper (record node { rng = rng }),
          )
        ]
  ]

  unfoldable pub forward_tampered : SimMessage → AttackerNode → Option (AttackerNode × List Effect)
  forward_tampered msg node =
      let s = stat_of node.stats.tamper in
      let entered = record node { stats = record node.stats { tamper = some s } } in
      elim (victim_field msg.payload) [
        | none ↦ some (entered, [])
        | some field ↦ elim (corrupted field msg entered) [
          | none ↦ none
          | some (altered, node') ↦ elim (destination node.num_uavs msg.payload.receiver_id) [
            | none ↦ some (node', [])
            | some dest ↦ some (node', Effect.transmits altered (some dest) ∷ [])
          ]
        ]
      ]

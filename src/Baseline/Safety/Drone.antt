-- ===== src/Baseline/Safety/Drone.antt =====
-- BaselineSigAuth.cc, `handleM2` and `handleM4` of the drone against any message.
use uav_omnet.Base.{
  ℕ, ◌≡◌, inl, inr, true, false, Option, none, some, [], ◌∷◌, ◌++◌, Bytes, is_empty, or_empty,
  Option-cases, arith,
}
use uav_omnet.Core.{FieldId, of_list}
use uav_omnet.Wire.{MessageType, AbortReason, Message, mac_input, encode_id}
use uav_omnet.Crypto.X25519.{x25519_derive}
use uav_omnet.Crypto.X25519
use uav_omnet.Crypto.Label
use uav_omnet.Protocol.Flow.{done, stop, Flow-cases}
use uav_omnet.Protocol.Safety.Station.{field}
use uav_omnet.Baseline.State.{BaselineEnv, BaselineUav}
use uav_omnet.Baseline.Uav.{handle_m2, handle_m4}

module _ {Key : Type 0} (env : BaselineEnv Key) where
  open env use {core, sig_suite, sym_suite, ossl}

  -- What the signature of B2 has to cover: the nonce, the time and the public key that were received, with
  -- the id, the nonce and the public key of the drone's own request, but not the time of that request.
  abbrev pub signed_b2 : BaselineUav Key → Message → Bytes
  signed_b2 uav m2 = mac_input core m2.suite_id MessageType.b1_m2_gs_response (
      of_list (
        (FieldId.sender_id, encode_id core uav.uav_id)
        ∷ (FieldId.nonce_1, uav.session.n1)
        ∷ (FieldId.nonce_2, field m2 FieldId.nonce_2)
        ∷ (FieldId.timestamp, field m2 FieldId.timestamp)
        ∷ (FieldId.epk_a, uav.session.ephemeral.public_key)
        ∷ (FieldId.epk_b, field m2 FieldId.epk_b)
        ∷ []))

  -- The drone answers B2 only if its signature verifies under the ground station's key over what was
  -- received with the id, the nonce and the public key of the drone's own request; the session key is then
  -- derived from the shared secret and the whole transcript, and the scalar is erased. The time of the
  -- request is not among the signed fields: a session that has another time there answers the same B2 alike.
  pub handle_m2_signed :
      (m2 : Message) (now_ms : ℕ) (uav uav' : BaselineUav Key) (reply : Option Message)
      → handle_m2 env m2 now_ms uav ≡ done reply uav'
      → (key : Key) × (shared : Bytes) × (uav.gs_public_key ≡ some key)
        × (sig_suite.verify key (signed_b2 uav m2) (field m2 FieldId.signature) ≡ true)
        × (x25519_derive ossl uav.session.ephemeral.secret (field m2 FieldId.epk_b) ≡ some shared)
        × (uav'.session.transcript ≡ uav.session.transcript ++ signed_b2 uav m2)
        × (uav'.session.session_key
            ≡ sym_suite.kdf shared uav'.session.transcript Label.p2_sess [] sym_suite.key_len)
        × (uav'.session.ephemeral.secret ≡ [])
        × ((t1 : ℕ)
            → handle_m2 env m2 now_ms (record uav { session = record uav.session { t1 = t1 } })
              ≡ done reply (record uav' { session = record uav'.session { t1 = t1 } }))
  unfolding handle_m2 X25519.erase
  handle_m2_signed m2 now_ms uav uav' reply h = elim (Option-cases uav.gs_public_key) [
    | inl e ↦ absurd (ground arith)
    | inr (key, e) ↦ (
      key,
      or_empty (x25519_derive ossl uav.session.ephemeral.secret (field m2 FieldId.epk_b)),
      e,
      ground arith,
      ground arith,
      ground arith,
      ground arith,
      ground arith,
      λ t1. ground arith,
    )
  ]

  -- A B2 whose signature does not verify under the provisioned key gets no reply and leaves nothing behind but a nonce in
  -- the replay cache.
  pub handle_m2_unsigned :
      (m2 : Message) (now_ms : ℕ) (uav : BaselineUav Key) (key : Key)
      → uav.gs_public_key ≡ some key
      → sig_suite.verify key (signed_b2 uav m2) (field m2 FieldId.signature) ≡ false
      → (r : AbortReason) × (uav' : BaselineUav Key) × (handle_m2 env m2 now_ms uav ≡ stop r uav')
        × (uav' ≡ record uav { replay = uav'.replay })
  unfolding handle_m2
  handle_m2_unsigned m2 now_ms uav key known forged =
      elim (Flow-cases (handle_m2 env m2 now_ms uav)) [
        | inl (reply, uav', e) ↦ absurd (ground arith)
        | inr (inl (r, uav', e)) ↦ (r, uav', e, ground arith)
        | inr (inr e) ↦ absurd (ground arith)
      ]

  -- B4 establishes the drone only if it has a session key and the tag verifies under it over the
  -- transcript and the word "confirm"; nothing else changes and nothing is sent.
  pub handle_m4_confirmed :
      (m4 : Message) (now_ms : ℕ) (uav uav' : BaselineUav Key) (reply : Option Message)
      → handle_m4 env m4 now_ms uav ≡ done reply uav'
      → (is_empty uav.session.session_key ≡ false)
        × (sym_suite.mac_verify uav.session.session_key
              (uav.session.transcript ++ core.from_string "confirm")
              (field m4 FieldId.mac_tag)
            ≡ true)
        × (uav' ≡ record uav { session = record uav.session { established = true } })
        × (reply ≡ none)
  unfolding handle_m4
  handle_m4_confirmed m4 now_ms uav uav' reply h =
      (ground arith, ground arith, ground arith, ground arith)

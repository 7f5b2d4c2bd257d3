-- ===== src/Protocol/Safety/Drone.antt =====
-- Protocol.cc, `handleM2` and `handleM4` of the drone against any message.
use uav_omnet.Base.{
  or_empty, ℕ, ◌≡◌, ◌⊎◌, inl, inr, true, false, Option, none, some, [], ◌∷◌, Bytes, is_empty, arith,
}
use uav_omnet.Core.{FieldId, of_list}
use uav_omnet.Wire.{MessageType, AbortReason, Message, mac_input}
use uav_omnet.Protocol.Flow.{done, stop, Flow-cases}
use uav_omnet.Protocol.Credentials.{Package, unpack_credentials}
use uav_omnet.Protocol.State.{Env, Uav, Phase2UavSession}
use uav_omnet.Protocol.Uav.{handle_m2, handle_m4}
use uav_omnet.Protocol.Handshake.Terms.{aead_key_of, aead_nonce_of, aad_of}
use uav_omnet.Protocol.Safety.Station.{field}

-- The string that the authenticator of M2 has to cover: what was received, with the identity, the
-- nonce and the public key of the drone's own request.
abbrev pub expected_input2 : Env → Uav → Message → Bytes
expected_input2 env uav m2 = mac_input env.core m2.suite_id MessageType.p2_m2_gs_response (
    of_list (
      (FieldId.tid, uav.state.tid)
      ∷ (FieldId.nonce_1, uav.phase2.n1)
      ∷ (FieldId.nonce_2, field m2 FieldId.nonce_2)
      ∷ (FieldId.timestamp, field m2 FieldId.timestamp)
      ∷ (FieldId.epk_a, uav.phase2.ephemeral.public_key)
      ∷ (FieldId.epk_b, field m2 FieldId.epk_b)
      ∷ []))

-- What the package of M4 opens to in the drone's own session.
abbrev pub opened_by : Env → Uav → Message → Option Bytes
opened_by env uav m4 =
    let session = uav.phase2 in
    env.suite.aead_open (aead_key_of env session.session_key)
      (aead_nonce_of env session.session_key)
      (aad_of env m4.suite_id session.tid_at_request session.n1 session.n2)
      (field m4 FieldId.cred_pkg)

abbrev or_no_package : Option Package → Package
or_no_package none = record { creds = []; tids = []; tid_new = [] }
or_no_package (some pkg) = pkg

module _ (env : Env) where
  open env use {core, suite, ossl}

  -- Unless the drone is in legacy mode, an M2 whose authenticator does not verify, over the drone's own
  -- request, gets no reply and leaves nothing behind but a nonce in the replay cache.
  pub handle_m2_no_oracle :
      (m2 : Message) (now_ms : ℕ) (uav : Uav)
      → uav.legacy_no_gs_auth ≡ false
      → suite.mac_verify uav.phase2.auth_key (expected_input2 env uav m2) (field m2 FieldId.mac_tag)
        ≡ false
      → (r : AbortReason) × (uav' : Uav) × (handle_m2 env m2 now_ms uav ≡ stop r uav')
        × (uav' ≡ record uav { replay = uav'.replay })
  unfolding handle_m2
  handle_m2_no_oracle m2 now_ms uav strict forged =
      elim (Flow-cases (handle_m2 env m2 now_ms uav)) [
        | inl (reply, uav', e) ↦ absurd (ground arith)
        | inr (inl (r, uav', e)) ↦ (r, uav', e, ground arith)
        | inr (inr e) ↦ absurd (ground arith)
      ]

  -- The package of M4 is accepted only if it opens under the drone's session key with the identity and
  -- the nonces of the drone's own session, and it is well formed; the drone then holds what it says,
  -- is established and sends nothing.
  pub handle_m4_authentic :
      (m4 : Message) (now_ms : ℕ) (uav uav' : Uav) (reply : Option Message)
      → handle_m4 env m4 now_ms uav ≡ done reply uav'
      → (plaintext : Bytes) × (pkg : Package) × (is_empty uav.phase2.session_key ≡ false)
        × (opened_by env uav m4 ≡ some plaintext)
        × (unpack_credentials core plaintext ≡ some pkg)
        × (uav'.phase2.peer_credentials ≡ pkg.creds)
        × (uav'.phase2.established ≡ true)
        × (reply ≡ none)
  unfolding handle_m4
  handle_m4_authentic m4 now_ms uav uav' reply h = (
    or_empty (opened_by env uav m4),
    or_no_package (unpack_credentials core (or_empty (opened_by env uav m4))),
    ground arith,
    ground arith,
    ground arith,
    ground arith,
    ground arith,
    ground arith,
  )

  -- A refused M4 changes nothing.
  pub handle_m4_rejects :
      (m4 : Message) (now_ms : ℕ) (uav uav' : Uav) (r : AbortReason)
      → handle_m4 env m4 now_ms uav ≡ stop r uav'
      → uav' ≡ uav
  unfolding handle_m4
  handle_m4_rejects m4 now_ms uav uav' r h = ground arith

-- Phase 2 of a drone: where there is a session key, the scalar behind it is erased.
abbrev pub IsForwardSecret : Phase2UavSession → Type 0
IsForwardSecret s =
    (is_empty s.session_key ≡ true) ⊎ ((s.ephemeral.secret ≡ []) × (s.ephemeral.erased ≡ true))

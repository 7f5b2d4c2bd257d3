-- ===== src/Baseline/Safety/Station.antt =====
-- BaselineSigAuth.cc, `handleM1` and `handleM3` of the ground station against any message.
use uav_omnet.Base.{
  ℕ, ◌≡◌, true, Option, none, some, [], ◌∷◌, Bytes, Option-cases, inl, inr, ℤ, lookup, arith,
}
use uav_omnet.Core.{FieldId, of_list}
use uav_omnet.Wire.{MessageType, AbortReason, Message, mac_input, decode_id, decode_timestamp}
use uav_omnet.Protocol.Flow.{done, stop}
use uav_omnet.Protocol.Replay.{offer, timestamp_fresh}
use uav_omnet.Protocol.Safety.Station.{field}
use uav_omnet.Baseline.State.{
  BaselineEnv, BaselineGsSession, BaselineGroundStation, no_baseline_gs_session,
}
use uav_omnet.Baseline.GroundStation.{key_of, handle_m1}

abbrev or_no_session : Option BaselineGsSession → BaselineGsSession
or_no_session none = no_baseline_gs_session
or_no_session (some session) = session

abbrev or_ground : Option ℤ → ℤ
or_ground none = no_baseline_gs_session.uav_id
or_ground (some id) = id

abbrev or_zero : Option ℕ → ℕ
or_zero none = 0
or_zero (some n) = n

module _ {Key : Type 0} (env : BaselineEnv Key) where
  open env use {core, sig_suite, sym_suite, ossl}

  -- What the signature of B1 covers.
  abbrev pub signed_b1 : Message → Bytes
  signed_b1 m1 = mac_input core m1.suite_id MessageType.b1_m1_auth_request (
      of_list (
        (FieldId.sender_id, field m1 FieldId.sender_id)
        ∷ (FieldId.nonce_1, field m1 FieldId.nonce_1)
        ∷ (FieldId.timestamp, field m1 FieldId.timestamp)
        ∷ (FieldId.epk_a, field m1 FieldId.epk_a)
        ∷ []))

  -- The id that a B1 names.
  abbrev pub named_by : Message → ℤ
  named_by m1 = or_ground (decode_id core (field m1 FieldId.sender_id))

  -- The ground station answers B1 only if a key is enrolled under the id that it names, its signature
  -- over the received fields verifies under that key, its nonce is new and its time in the window.
  pub handle_m1_signed :
      (m1 : Message) (now_ms : ℕ) (gs gs' : BaselineGroundStation Key) (reply : Option Message)
      → handle_m1 env m1 now_ms gs ≡ done reply gs'
      → (id : ℤ) × (t1 : ℕ) × (decode_id core (field m1 FieldId.sender_id) ≡ some id)
        × (decode_timestamp core (field m1 FieldId.timestamp) ≡ some t1)
        × (timestamp_fresh now_ms t1 gs.window_ms ≡ true)
        × ((offer gs.replay (field m1 FieldId.nonce_1)).1 ≡ true)
        × ((key : Key) × (key_of id gs ≡ some key)
            × (sig_suite.verify key (signed_b1 m1) (field m1 FieldId.signature) ≡ true))
  unfolding handle_m1
  handle_m1_signed m1 now_ms gs gs' reply h = elim (Option-cases (key_of (named_by m1) gs)) [
    | inl e ↦ absurd (ground arith)
    | inr (key, e) ↦ (
      named_by m1,
      or_zero (decode_timestamp core (field m1 FieldId.timestamp)),
      ground arith,
      ground arith,
      ground arith,
      ground arith,
      (key, e, ground arith),
    )
  ]

  -- A B1 that is refused leaves nothing behind but a nonce in the replay cache: no key pair is drawn.
  pub handle_m1_refused :
      (m1 : Message) (now_ms : ℕ) (gs gs' : BaselineGroundStation Key) (r : AbortReason)
      → handle_m1 env m1 now_ms gs ≡ stop r gs'
      → gs' ≡ record gs { replay = gs'.replay }
  unfolding handle_m1
  handle_m1_refused m1 now_ms gs gs' r h = ground arith

  -- The session that a B3 leads to.
  abbrev pub session_of : BaselineGroundStation Key → Message → BaselineGsSession
  session_of gs m3 = or_no_session (lookup m3.sender_id gs.sessions)

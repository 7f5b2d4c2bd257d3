-- ===== src/Baseline/Safety/Burnt.antt =====
-- BaselineSigAuth.cc, `handleM3` of the ground station: what a wrong confirmation costs.
use uav_omnet.Base.{
  ℕ, ◌≡◌, refl, ◌∙◌, ap, true, false, Option, some, [], Bytes, or_empty, ℤ, eq_ℤ, eq_ℤ_iff, lookup,
  insert, lookup-insert, lookup-insert_self, arith,
}
use uav_omnet.Core.{FieldId}
use uav_omnet.Wire.{MessageType, AbortReason, Message}
use uav_omnet.Crypto.X25519.{x25519_derive}
use uav_omnet.Crypto.X25519
use uav_omnet.Crypto.Label
use uav_omnet.Protocol.Flow.{done, stop}
use uav_omnet.Baseline.State.{BaselineEnv, BaselineGsSession, BaselineGroundStation}
use uav_omnet.Baseline.GroundStation.{handle_m1, handle_m3}
use uav_omnet.Baseline.Safety.Station.{named_by, session_of, handle_m1_refused}

module _ {Key : Type 0} (env : BaselineEnv Key) where
  open env use {ossl, sym_suite}

  -- What the ground station may handle after a state: any B3, and any B1 but one that is accepted in the
  -- name of the sender.
  pub data Serves (sender : ℤ) (start : BaselineGroundStation Key)
      : BaselineGroundStation Key → Type 0 where
    here : Serves sender start start
    b3_accepted :
        {gs gs' : BaselineGroundStation Key} (m3 : Message) (now_ms : ℕ) (reply : Option Message)
        → Serves sender start gs
        → handle_m3 env m3 now_ms gs ≡ done reply gs'
        → Serves sender start gs'
    b3_refused :
        {gs gs' : BaselineGroundStation Key} (m3 : Message) (now_ms : ℕ) (r : AbortReason)
        → Serves sender start gs
        → handle_m3 env m3 now_ms gs ≡ stop r gs'
        → Serves sender start gs'
    b1_accepted :
        {gs gs' : BaselineGroundStation Key} (m1 : Message) (now_ms : ℕ) (reply : Option Message)
        → Serves sender start gs
        → handle_m1 env m1 now_ms gs ≡ done reply gs'
        → eq_ℤ (named_by env m1) sender ≡ false
        → Serves sender start gs'
    b1_refused :
        {gs gs' : BaselineGroundStation Key} (m1 : Message) (now_ms : ℕ) (r : AbortReason)
        → Serves sender start gs
        → handle_m1 env m1 now_ms gs ≡ stop r gs'
        → Serves sender start gs'

  -- The sender has a session without a scalar.
  abbrev IsBurnt : ℤ → BaselineGroundStation Key → Type 0
  IsBurnt sender gs =
      (session : BaselineGsSession) × (lookup sender gs.sessions ≡ some session)
      × (session.ephemeral.secret ≡ [])

  burnt_refuses :
      (m3 : Message) (now_ms : ℕ) (gs : BaselineGroundStation Key) (tag : Bytes)
      → IsBurnt m3.sender_id gs
      → m3.type ≡ MessageType.b1_m3_uav_confirm
      → m3.fields FieldId.mac_tag ≡ some tag
      → handle_m3 env m3 now_ms gs ≡ stop AbortReason.dh_failed gs
  unfolding handle_m3 x25519_derive
  burnt_refuses m3 now_ms gs tag (session, found, empty) typed tagged =
      ground (arith, found, empty, typed, tagged)

  -- A B3 that is accepted comes from a sender with a scalar.
  accepted_elsewhere :
      (sender : ℤ) (m3 : Message) (now_ms : ℕ) (gs gs' : BaselineGroundStation Key)
      (reply : Option Message)
      → IsBurnt sender gs
      → handle_m3 env m3 now_ms gs ≡ done reply gs'
      → IsBurnt sender gs'
  unfolding handle_m3 x25519_derive X25519.erase
  accepted_elsewhere sender m3 now_ms gs gs' reply (session, found, empty) h =
      let same = eq_ℤ_iff m3.sender_id sender in
      grind (arith, lookup-insert {V = BaselineGsSession})

  refused_keeps :
      (sender : ℤ) (m3 : Message) (now_ms : ℕ) (gs gs' : BaselineGroundStation Key)
      (r : AbortReason)
      → IsBurnt sender gs
      → handle_m3 env m3 now_ms gs ≡ stop r gs'
      → IsBurnt sender gs'
  unfolding handle_m3 x25519_derive X25519.erase
  refused_keeps sender m3 now_ms gs gs' r (session, found, empty) h =
      let same = eq_ℤ_iff m3.sender_id sender in
      grind (arith, lookup-insert {V = BaselineGsSession})

  opened_elsewhere :
      (sender : ℤ) (m1 : Message) (now_ms : ℕ) (gs gs' : BaselineGroundStation Key)
      (reply : Option Message)
      → IsBurnt sender gs
      → handle_m1 env m1 now_ms gs ≡ done reply gs'
      → eq_ℤ (named_by env m1) sender ≡ false
      → IsBurnt sender gs'
  unfolding handle_m1
  opened_elsewhere sender m1 now_ms gs gs' reply (session, found, empty) h apart =
      grind (arith, lookup-insert {V = BaselineGsSession})

  Serves-IsBurnt :
      (sender : ℤ) (start gs : BaselineGroundStation Key)
      → IsBurnt sender start
      → Serves sender start gs
      → IsBurnt sender gs
  Serves-IsBurnt sender start last burnt here = burnt
  Serves-IsBurnt sender start last burnt (b3_accepted m3 now_ms reply before h) =
      accepted_elsewhere sender m3 now_ms _ _ reply (Serves-IsBurnt sender start _ burnt before) h
  Serves-IsBurnt sender start last burnt (b3_refused m3 now_ms r before h) =
      refused_keeps sender m3 now_ms _ _ r (Serves-IsBurnt sender start _ burnt before) h
  Serves-IsBurnt sender start last burnt (b1_accepted m1 now_ms reply before h apart) =
      opened_elsewhere sender m1 now_ms _ _ reply (Serves-IsBurnt sender start _ burnt before) h
        apart
  Serves-IsBurnt sender start last burnt (b1_refused {gs} {gs'} m1 now_ms r before h) =
      let (session, found, empty) = Serves-IsBurnt sender start gs burnt before in
      (
        session,
        ap (λ s. lookup sender s.sessions) (handle_m1_refused env m1 now_ms gs gs' r h) ∙ found,
        empty,
      )

  -- A B3 whose confirmation is wrong uses up the session of the sender that it names. Whatever the ground
  -- station handles after it, any B3 and any B1 but one that is accepted in the sender's name: a B3 of that
  -- sender with a tag, genuine or not, is refused as a failed key exchange and changes nothing.
  pub handle_m3_burns :
      (m3 later : Message) (now_ms later_ms : ℕ) (gs gs1 gs2 : BaselineGroundStation Key)
      (tag : Bytes)
      → handle_m3 env m3 now_ms gs ≡ stop AbortReason.mac_verify_failed gs1
      → Serves m3.sender_id gs1 gs2
      → later.type ≡ MessageType.b1_m3_uav_confirm
      → later.fields FieldId.mac_tag ≡ some tag
      → later.sender_id ≡ m3.sender_id
      → handle_m3 env later later_ms gs2 ≡ stop AbortReason.dh_failed gs2
  unfolding handle_m3 X25519.erase
  handle_m3_burns m3 later now_ms later_ms gs gs1 gs2 tag h run typed tagged same =
      let old = session_of env gs m3 in
      let shared = or_empty (x25519_derive ossl old.ephemeral.secret old.epk_a) in
      let burnt = record old {
        session_key = sym_suite.kdf shared old.transcript Label.p2_sess [] sym_suite.key_len;
        ephemeral = X25519.erase old.ephemeral;
        ephemeral_erased = true;
      } in
      let written : gs1.sessions ≡ insert m3.sender_id burnt gs.sessions = ground arith in
      let found : lookup m3.sender_id gs1.sessions ≡ some burnt =
        rw written (lookup-insert_self m3.sender_id burnt gs.sessions) in
      let (session, there, empty) = Serves-IsBurnt m3.sender_id gs1 gs2 (burnt, found, refl) run in
      burnt_refuses later later_ms gs2 tag
        (session, ap (λ id. lookup id gs2.sessions) same ∙ there, empty) typed tagged

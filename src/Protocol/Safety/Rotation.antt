-- ===== src/Protocol/Safety/Rotation.antt =====
-- Protocol.cc, `findByTid` and the identity that `handleM3` rotates.
use mathlib.Core.Path.{subst}
use uav_omnet.Base.{
  ℕ, suc, ◌<◌, pos, eq_ℤ_iff, ◌≡◌, sym, ◌⊎◌, refl, true, false, Option, none, some, [], ◌∷◌, ◌++◌,
  Bytes, bytes_eq, ℤ, eq_ℤ, StdMap, ltb_ℤ, lookup, insert, arith,
}
use uav_omnet.Core.{FieldId}
use uav_omnet.Wire.{Message}
use uav_omnet.Crypto.Label
use uav_omnet.Protocol.Flow.{done}
use uav_omnet.Protocol.State.{Env, DeviceRecord, GroundStation, tid_len}
use uav_omnet.Protocol.GroundStation.{answers_to, find_by_tid, handle_m3}
use uav_omnet.Protocol.Safety.Station.{field, device_of, session_of, handle_m3_authentic}
use uav_omnet.Protocol.Handshake.Registry.{Registered, lookup-find_by_tid, find_by_tid-Registered}

-- No record but the one filed under `id` answers to `tid`.
abbrev pub Silent : Bytes → ℤ → StdMap DeviceRecord → Type 0
Silent tid id [] = Unit {0}
Silent tid id ((k, r) ∷ m) = ((eq_ℤ k id ≡ true) ⊎ (answers_to tid r ≡ false)) × Silent tid id m

find_by_tid-Silent_others :
    (tid : Bytes) (low i : ℕ) (m : StdMap DeviceRecord)
    → Registered low m
    → Silent tid (pos i) m
    → i < low
    → find_by_tid tid m ≡ none
unfolding find_by_tid
find_by_tid-Silent_others tid low i [] g s h = refl
find_by_tid-Silent_others tid low i ((k, r) ∷ m) (n, ek, er, le, lt, st, more) (here, there) h =
    ground (
      arith,
      eq_ℤ_iff k (pos i),
      find_by_tid-Silent_others tid (suc n) i m more there (omega arith),
    )

find_by_tid-Silent :
    (tid : Bytes) (low i : ℕ) (m : StdMap DeviceRecord)
    → Registered low m
    → Silent tid (pos i) m
    → (rec : DeviceRecord) → answers_to tid rec ≡ false
    → find_by_tid tid (insert (pos i) rec m) ≡ none
unfolding find_by_tid insert ltb_ℤ
find_by_tid-Silent tid low i [] g s rec h = rw h refl
find_by_tid-Silent tid low i ((k, r) ∷ m) (n, ek, er, le, lt, st, more) (here, there) rec h =
    ground (
      arith,
      eq_ℤ_iff k (pos i),
      find_by_tid-Silent_others tid (suc n) i m more there,
      find_by_tid-Silent tid (suc n) i m more there rec h,
    )

module _ (env : Env) where
  open env use {core, suite}

  -- The identity that an M3 makes pending.
  abbrev pub next_tid : GroundStation → Message → Bytes
  next_tid gs m3 =
      let rec = device_of gs m3 in
      let session = session_of gs m3 in
      suite.kdf rec.mk rec.tid Label.tid_rotate (session.n1 ++ session.n2) tid_len

  -- An M3 that is accepted replaces the pending identity of its device's record and changes no other
  -- record and nothing else of that one: the identity itself stays as it was.
  pub handle_m3_rotates :
      (m3 : Message) (now_ms : ℕ) (gs gs' : GroundStation) (reply : Option Message)
      → lookup (device_of gs m3).uav_id gs.devices ≡ some (device_of gs m3)
      → handle_m3 env m3 now_ms gs ≡ done reply gs'
      → gs'.devices
        ≡ insert
            (device_of gs m3).uav_id
            (record (device_of gs m3) { pending_tid = next_tid gs m3 })
            gs.devices
  unfolding handle_m3
  handle_m3_rotates m3 now_ms gs gs' reply filed h = ground arith

  -- A device that sent M3 under a pending identity is not known under it any more once that M3 is
  -- accepted, unless the identity is also the next one or another record's: if M4 is then lost, the
  -- device is left with an identity that the ground station does not find.
  pub handle_m3_strands :
      (m3 : Message) (now_ms : ℕ) (gs gs' : GroundStation) (reply : Option Message)
      → Registered 0 gs.devices
      → Silent (field m3 FieldId.tid) (device_of gs m3).uav_id gs.devices
      → bytes_eq (device_of gs m3).tid (field m3 FieldId.tid) ≡ false
      → bytes_eq (next_tid gs m3) (field m3 FieldId.tid) ≡ false
      → handle_m3 env m3 now_ms gs ≡ done reply gs'
      → find_by_tid (field m3 FieldId.tid) gs'.devices ≡ none
  unfolding answers_to
  handle_m3_strands m3 now_ms gs gs' reply registered silent old new h =
      let known = (handle_m3_authentic env m3 now_ms gs gs' reply h).known in
      let filed = lookup-find_by_tid 0 (field m3 FieldId.tid) gs.devices _ registered known in
      let (n, is_n, above) =
        find_by_tid-Registered 0 (field m3 FieldId.tid) gs.devices _ registered known in
      let tid = field m3 FieldId.tid in
      let next = record (device_of gs m3) { pending_tid = next_tid gs m3 } in
      let deaf : answers_to tid next ≡ false = ground arith in
      rw (handle_m3_rotates m3 now_ms gs gs' reply filed h) (
        subst (λ id. Silent tid id gs.devices → find_by_tid tid (insert id next gs.devices) ≡ none)
          (sym is_n) (λ s. find_by_tid-Silent tid 0 n gs.devices registered s next deaf) silent)

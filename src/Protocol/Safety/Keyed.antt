-- ===== src/Protocol/Safety/Keyed.antt =====
-- Protocol.cc, the session that `handleM3` of the ground station leaves behind.
use uav_omnet.Base.{
  ℕ, ◌≡◌, refl, true, Option, some, [], Bytes, or_empty, lookup, insert, lookup-insert_self, arith,
}
use uav_omnet.Wire.{Message}
use uav_omnet.Crypto.X25519.{x25519_derive}
use uav_omnet.Crypto.X25519
use uav_omnet.Protocol.Flow.{done}
use uav_omnet.Protocol.State.{Env, GroundStation, Phase2GsSession}
use uav_omnet.Protocol.GroundStation.{handle_m3}
use uav_omnet.Protocol.Handshake.Terms.{session_key_of}
use uav_omnet.Protocol.Safety.Station.{device_of, session_of}

module _ (env : Env) where
  open env use {ossl}

  -- An accepted M3 leaves the session of its device with the scalar erased and with the key that is
  -- derived from the device's master key, the shared secret and the transcript.
  pub sessions-handle_m3 :
      (m3 : Message) (now_ms : ℕ) (gs gs' : GroundStation) (reply : Option Message)
      → handle_m3 env m3 now_ms gs ≡ done reply gs'
      → (shared : Bytes) × (session : Phase2GsSession) × (x25519_derive ossl
            (session_of gs m3).ephemeral.secret
            (session_of gs m3).epk_a
          ≡ some shared)
        × (lookup (device_of gs m3).uav_id gs'.sessions ≡ some session)
        × (session.ephemeral.secret ≡ [])
        × (session.ephemeral.erased ≡ true)
        × (session.m3_verified ≡ true)
        × (session.session_key
            ≡ session_key_of env (device_of gs m3).mk shared (session_of gs m3).transcript)
  unfolding handle_m3 X25519.erase
  sessions-handle_m3 m3 now_ms gs gs' reply h =
      let rec = device_of gs m3 in
      let old = session_of gs m3 in
      let shared = or_empty (x25519_derive ossl old.ephemeral.secret old.epk_a) in
      let verified = record old { m3_verified = true } in
      let end = record verified {
        session_key = session_key_of env rec.mk shared old.transcript;
        ephemeral = X25519.erase old.ephemeral;
        ephemeral_erased = true;
      } in
      let before = insert rec.uav_id verified gs.sessions in
      let written : gs'.sessions ≡ insert rec.uav_id end before = ground arith in
      (
        shared,
        end,
        ground arith,
        rw written (lookup-insert_self rec.uav_id end before),
        refl,
        refl,
        refl,
        refl,
      )

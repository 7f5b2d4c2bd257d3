-- ===== src/Protocol/Handshake/Deliver.antt =====
-- Protocol.cc, `handleM3` and `handleM4` in an undisturbed handshake.
use uav_omnet.Base.{
  ℕ, ◌≡◌, true, false, none, some, ◌++◌, Bytes, is_empty, ℤ, lookup, insert, arith,
}
use uav_omnet.Crypto.Suite.{IsFunctional}
use uav_omnet.Crypto.X25519.{X25519KeyPair, x25519_derive}
use uav_omnet.Crypto.X25519
use uav_omnet.Crypto.Label
use uav_omnet.Protocol.Flow.{done}
use uav_omnet.Protocol.Credentials.{Package, pack_credentials, unpack_credentials}
use uav_omnet.Protocol.State.{Env, DeviceRecord, Phase2GsSession, GroundStation, Uav, tid_len}
use uav_omnet.Protocol.Uav.{handle_m4}
use uav_omnet.Protocol.GroundStation.{handle_m3, find_by_tid, credentials_for, tids_for}
use uav_omnet.Protocol.Handshake.Terms.{
  auth_key_of, input_of_m3, message_3, message_4, session_key_of, aead_key_of, aead_nonce_of,
  aad_of,
}

abbrev pub finished : Uav → Package → Uav
finished uav pkg = record uav {
  state = record uav.state {
    tid = elim (is_empty pkg.tid_new) [ true ↦ uav.state.tid | false ↦ pkg.tid_new ];
  };
  phase2 = record uav.phase2 {
    peer_credentials = pkg.creds;
    peer_tids = pkg.tids;
    established = true;
  };
}

module _ (env : Env) where
  open env use {core, suite}

  -- The identity that M4 hands out.
  abbrev pub rotated : DeviceRecord → Bytes → Bytes → Bytes
  rotated rec n1 n2 = suite.kdf rec.mk rec.tid Label.tid_rotate (n1 ++ n2) tid_len

  abbrev pub keyed : Phase2GsSession → Bytes → Bytes → Phase2GsSession
  keyed session mk shared = record session {
    m3_verified = true;
    session_key = session_key_of env mk shared session.transcript;
    ephemeral = X25519.erase session.ephemeral;
    ephemeral_erased = true;
  }

  abbrev pub delivered : GroundStation → DeviceRecord → Phase2GsSession → Bytes → GroundStation
  delivered gs rec session shared = record gs {
    sessions =
        insert rec.uav_id (keyed session rec.mk shared)
          (insert rec.uav_id (record session { m3_verified = true }) gs.sessions);
    devices =
        insert rec.uav_id (record rec { pending_tid = rotated rec session.n1 session.n2 })
          gs.devices;
  }

  abbrev pub plaintext_for : GroundStation → DeviceRecord → Bytes → Bytes → Bytes
  plaintext_for gs rec n1 n2 =
      pack_credentials core (credentials_for env gs.gs_master_key rec.uav_id gs.devices)
        (tids_for env rec.uav_id gs.devices) (rotated rec n1 n2)

module _ (env : Env) (functional : IsFunctional env.suite) where
  open env use {core, suite, ossl}

  -- The ground station answers an authentic M3 by the sealed package, and holds the session key.
  pub handle_m3-runs :
      (gs : GroundStation) (rec : DeviceRecord) (session : Phase2GsSession) (sender : ℤ)
      (tid shared ciphertext : Bytes) (now_ms : ℕ)
      → find_by_tid tid gs.devices ≡ some rec
      → lookup rec.uav_id gs.devices ≡ some rec
      → lookup rec.uav_id gs.sessions ≡ some session
      → session.auth_key ≡ auth_key_of env rec.mk
      → x25519_derive ossl session.ephemeral.secret session.epk_a ≡ some shared
      → let key = session_key_of env rec.mk shared session.transcript in
        suite.aead_seal
            (aead_key_of env key)
            (aead_nonce_of env key)
            (aad_of env suite.suite_id tid session.n1 session.n2)
            (plaintext_for env gs rec session.n1 session.n2)
          ≡ some ciphertext
        → handle_m3 env
            (message_3 env suite.suite_id sender rec.mk tid session.transcript)
            now_ms
            gs
          ≡ done
              (some (message_4 env suite.suite_id rec.uav_id (aead_nonce_of env key) ciphertext))
              (delivered env gs rec session shared)
  unfolding handle_m3
  handle_m3-runs gs rec session sender tid shared ciphertext now_ms found stored has_session has_key
        dh sealed =
      ground (
        arith,
        functional.mac_verify-mac (auth_key_of env rec.mk)
            (input_of_m3 env suite.suite_id tid session.transcript),
      )

  -- The drone that holds the session key opens the package of its own session.
  pub handle_m4-runs :
      (uav : Uav) (receiver : ℤ) (key ciphertext plaintext : Bytes) (now_ms : ℕ) (pkg : Package)
      → uav.phase2.session_key ≡ key
      → is_empty key ≡ false
      → suite.aead_open
          (aead_key_of env key)
          (aead_nonce_of env key)
          (aad_of env suite.suite_id uav.phase2.tid_at_request uav.phase2.n1 uav.phase2.n2)
          ciphertext
        ≡ some plaintext
      → unpack_credentials core plaintext ≡ some pkg
      → handle_m4 env
          (message_4 env suite.suite_id receiver (aead_nonce_of env key) ciphertext)
          now_ms
          uav
        ≡ done none (finished uav pkg)
  unfolding handle_m4
  handle_m4-runs uav receiver key ciphertext plaintext now_ms pkg has_key some_key opened unpacked =
      ground arith

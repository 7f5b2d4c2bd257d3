-- ===== src/Protocol/Handshake/Answer.antt =====
-- Protocol.cc, `handleM1` and `handleM2` in an undisturbed handshake.
use uav_omnet.Base.{ℕ, ◌<◌, ◌≡◌, true, some, [], ◌++◌, Bytes, length, ℤ, insert, arith}
use uav_omnet.Core.{IsBigEndian}
use uav_omnet.Wire.RoundTrip.{decode_timestamp-encode_timestamp}
use uav_omnet.Crypto.Suite.{IsFunctional}
use uav_omnet.Crypto.X25519.{X25519KeyPair, x25519_generate, x25519_derive}
use uav_omnet.Crypto.X25519
use uav_omnet.Crypto.Label
use uav_omnet.Crypto.Drbg.{Drbg}
use uav_omnet.Crypto.Drbg
use uav_omnet.Protocol.Flow.{done}
use uav_omnet.Protocol.Replay.{timestamp_fresh, offer}
use uav_omnet.Protocol.State.{Env, DeviceRecord, Phase2GsSession, GroundStation, Uav, no_gs_session}
use uav_omnet.Protocol.Uav.{handle_m2}
use uav_omnet.Protocol.GroundStation.{handle_m1, find_by_tid}
use uav_omnet.Protocol.Handshake.Terms.{
  auth_key_of, input_of_m1, input_of_m2, message_1, message_2, message_3, session_key_of,
}

abbrev pub answered : GroundStation → Drbg → Bytes → DeviceRecord → Phase2GsSession → GroundStation
answered gs rng n1 rec session = record gs {
  replay = (offer gs.replay n1).0;
  rng = rng;
  sessions = insert rec.uav_id session gs.sessions;
}

module _ (env : Env) where
  open env use {suite}

  abbrev pub transcript_of : Bytes → Bytes → Bytes → ℕ → ℕ → Bytes → Bytes → Bytes
  transcript_of tid n1 n2 t1 t2 epk_a epk_b =
      input_of_m1 env suite.suite_id tid n1 t1 epk_a
      ++ input_of_m2 env suite.suite_id tid n1 n2 t2 epk_a epk_b

  abbrev pub answering :
      DeviceRecord → Bytes → Bytes → Bytes → ℕ → ℕ → Bytes → X25519KeyPair → Phase2GsSession
  answering rec tid n1 n2 t1 t2 epk_a ephemeral = record no_gs_session {
    uav_id = rec.uav_id;
    auth_key = auth_key_of env rec.mk;
    n1 = n1;
    n2 = n2;
    t1 = t1;
    t2 = t2;
    epk_a = epk_a;
    epk_b = ephemeral.public_key;
    ephemeral = ephemeral;
    transcript = transcript_of tid n1 n2 t1 t2 epk_a ephemeral.public_key;
  }

  abbrev pub confirmed : Uav → Bytes → Bytes → Bytes → Bytes → Uav
  confirmed uav n2 mk shared transcript = record uav {
    replay = (offer uav.replay n2).0;
    phase2 = record uav.phase2 {
      n2 = n2;
      transcript = transcript;
      session_key = session_key_of env mk shared transcript;
      ephemeral = X25519.erase uav.phase2.ephemeral;
      ephemeral_erased = true;
    };
  }

module _ (env : Env) (functional : IsFunctional env.suite) (big_endian : IsBigEndian env.core) where
  open env use {core, suite, ossl, sha3_256}

  -- The ground station answers a fresh M1 of a device that it knows by M2.
  pub handle_m1-runs :
      (gs : GroundStation) (rec : DeviceRecord) (sender : ℤ) (tid n1 epk_a : Bytes) (t1 t2 : ℕ)
      (n2 seed : Bytes) (rng1 rng2 : Drbg) (ephemeral : X25519KeyPair)
      → length epk_a ≡ 32
      → length n1 ≡ 16
      → t1 < 4294967296
      → timestamp_fresh t2 t1 gs.window_ms ≡ true
      → (offer gs.replay n1).1 ≡ true
      → find_by_tid tid gs.devices ≡ some rec
      → Drbg.bytes sha3_256 16 gs.rng ≡ some (n2, rng1)
      → Drbg.bytes sha3_256 32 rng1 ≡ some (seed, rng2)
      → x25519_generate ossl seed ≡ some ephemeral
      → handle_m1 env (message_1 env sender rec.mk tid n1 t1 epk_a) t2 gs
        ≡ done
            (some (
              message_2 env suite.suite_id rec.uav_id rec.mk tid n1 n2 t2 epk_a
                ephemeral.public_key))
            (answered gs rng2 n1 rec (answering env rec tid n1 n2 t1 t2 epk_a ephemeral))
  unfolding handle_m1
  handle_m1-runs gs rec sender tid n1 epk_a t1 t2 n2 seed rng1 rng2 ephemeral la ln lt fresh new
        found d1 d2 g =
      ground (
        arith,
        decode_timestamp-encode_timestamp core big_endian t1 lt,
        functional.mac_verify-mac (auth_key_of env rec.mk)
            (input_of_m1 env suite.suite_id tid n1 t1 epk_a),
      )

  -- The drone answers the M2 that answers its own M1 by M3, and holds the session key.
  pub handle_m2-runs :
      (uav : Uav) (receiver : ℤ) (mk n1 n2 epk_b shared : Bytes) (t1 t2 t3 : ℕ)
      → uav.phase2.mk ≡ mk
      → uav.phase2.auth_key ≡ auth_key_of env mk
      → 0 < suite.key_len
      → uav.phase2.n1 ≡ n1
      → uav.phase2.transcript
        ≡ input_of_m1 env suite.suite_id uav.state.tid n1 t1 uav.phase2.ephemeral.public_key
      → length epk_b ≡ 32
      → length n2 ≡ 16
      → t2 < 4294967296
      → timestamp_fresh t3 t2 uav.window_ms ≡ true
      → (offer uav.replay n2).1 ≡ true
      → x25519_derive ossl uav.phase2.ephemeral.secret epk_b ≡ some shared
      → let transcript =
          transcript_of env uav.state.tid n1 n2 t1 t2 uav.phase2.ephemeral.public_key epk_b in
        handle_m2 env
          (message_2 env suite.suite_id receiver mk uav.state.tid n1 n2 t2
            uav.phase2.ephemeral.public_key epk_b)
          t3
          uav
        ≡ done
            (some (message_3 env suite.suite_id uav.uav_id mk uav.state.tid transcript))
            (confirmed env uav n2 mk shared transcript)
  unfolding handle_m2
  handle_m2-runs uav receiver mk n1 n2 epk_b shared t1 t2 t3 has_mk has_key positive has_n1 so_far
        lb ln lt fresh new dh =
      ground (
        arith,
        decode_timestamp-encode_timestamp core big_endian t2 lt,
        functional.mac_verify-mac (auth_key_of env mk) (
            input_of_m2 env suite.suite_id uav.state.tid n1 n2 t2 uav.phase2.ephemeral.public_key
              epk_b),
        functional.length-kdf mk [] Label.p2_auth [] suite.key_len,
      )

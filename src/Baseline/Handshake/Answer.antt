-- ===== src/Baseline/Handshake/Answer.antt =====
-- BaselineSigAuth.cc, `handleM2`, the ground station's `handleM3` and `handleM4` in an undisturbed
-- handshake.
use uav_omnet.Base.{
  ℕ, ◌<◌, ◌≡◌, true, false, none, some, ◌++◌, Bytes, is_empty, length, ℤ, lookup, insert, arith,
}
use uav_omnet.Core.{IsBigEndian}
use uav_omnet.Wire.{encode_id}
use uav_omnet.Wire.RoundTrip.{decode_timestamp-encode_timestamp}
use uav_omnet.Crypto.Suite.{IsFunctional}
use uav_omnet.Crypto.Signature.{IsCorrect}
use uav_omnet.Crypto.X25519.{X25519KeyPair, x25519_derive}
use uav_omnet.Crypto.X25519
use uav_omnet.Protocol.Flow.{done}
use uav_omnet.Protocol.Replay.{timestamp_fresh, offer}
use uav_omnet.Baseline.State.{
  BaselineEnv, BaselineGsSession, BaselineUavSession, BaselineGroundStation, BaselineUav,
}
use uav_omnet.Baseline.GroundStation.{handle_m3}
use uav_omnet.Baseline.Uav.{handle_m2, handle_m4}
use uav_omnet.Baseline.Handshake.{
  input_of_b1, input_of_b2, transcript_of, session_key_from, message_2, message_3, message_4,
}

module _ {Key : Type 0} (env : BaselineEnv Key) where
  open env use {core, sig_suite, sym_suite, ossl, sha3_256}

  abbrev pub confirming : BaselineUavSession → Bytes → Bytes → Bytes → BaselineUavSession
  confirming session n2 shared transcript = record session {
    n2 = n2;
    transcript = transcript;
    session_key = session_key_from env shared transcript;
    ephemeral = X25519.erase session.ephemeral;
    ephemeral_erased = true;
  }

  abbrev pub keyed : BaselineGsSession → Bytes → BaselineGsSession
  keyed session shared = record session {
    session_key = session_key_from env shared session.transcript;
    ephemeral = X25519.erase session.ephemeral;
    ephemeral_erased = true;
  }

  -- The drone answers the B2 that answers its own B1 by B3, and holds the session key.
  pub handle_m2-confirms :
      (big_endian : IsBigEndian core) (correct : IsCorrect sig_suite) (uav : BaselineUav Key)
      (gs_pair gs_key : Key) (n1 n2 epk_b shared : Bytes) (t1 t2 t3 : ℕ)
      → uav.gs_public_key ≡ some gs_key
      → sig_suite.key_from_public_bytes (sig_suite.public_key_bytes (some gs_pair)) ≡ some gs_key
      → uav.session.n1 ≡ n1
      → is_empty uav.session.transcript ≡ false
      → uav.session.transcript
        ≡ input_of_b1 env (encode_id core uav.uav_id) n1 t1 uav.session.ephemeral.public_key
      → length epk_b ≡ 32
      → length n2 ≡ 16
      → t2 < 4294967296
      → timestamp_fresh t3 t2 uav.window_ms ≡ true
      → (offer uav.replay n2).1 ≡ true
      → x25519_derive ossl uav.session.ephemeral.secret epk_b ≡ some shared
      → let transcript =
          transcript_of env
            (encode_id core uav.uav_id)
            n1
            n2
            t1
            t2
            uav.session.ephemeral.public_key
            epk_b in
        handle_m2 env
          (message_2 env uav.uav_id gs_pair n1 n2 t2 uav.session.ephemeral.public_key epk_b)
          t3
          uav
        ≡ done
            (some (message_3 env uav.uav_id (session_key_from env shared transcript) transcript))
            (record uav {
              replay = (offer uav.replay n2).0;
              session = confirming uav.session n2 shared transcript;
            })
  unfolding handle_m2
  handle_m2-confirms big_endian correct uav gs_pair gs_key n1 n2 epk_b shared t1 t2 t3 known
        imported has_n1 begun so_far lb ln lt fresh new dh =
      ground (
        arith,
        decode_timestamp-encode_timestamp core big_endian t2 lt,
        correct.verify-sign gs_pair gs_key
            (input_of_b2 env (encode_id core uav.uav_id) n1 n2 t2 uav.session.ephemeral.public_key
              epk_b)
            imported,
      )

  -- The ground station answers the B3 of its own session by B4.
  pub handle_m3-confirms :
      (functional : IsFunctional sym_suite) (gs : BaselineGroundStation Key)
      (session : BaselineGsSession) (id : ℤ) (shared : Bytes) (t4 : ℕ)
      → lookup id gs.sessions ≡ some session
      → session.uav_id ≡ id
      → x25519_derive ossl session.ephemeral.secret session.epk_a ≡ some shared
      → handle_m3 env
          (message_3 env id (session_key_from env shared session.transcript) session.transcript)
          t4
          gs
        ≡ done
            (some (
              message_4 env id (session_key_from env shared session.transcript) session.transcript))
            (record gs { sessions = insert id (keyed session shared) gs.sessions })
  unfolding handle_m3
  handle_m3-confirms functional gs session id shared t4 found own dh = ground (
    arith,
    functional.mac_verify-mac (session_key_from env shared session.transcript) session.transcript,
  )

  -- The drone accepts the B4 under its session key.
  pub handle_m4-establishes :
      (functional : IsFunctional sym_suite) (uav : BaselineUav Key) (id : ℤ) (t5 : ℕ)
      → is_empty uav.session.session_key ≡ false
      → handle_m4 env (message_4 env id uav.session.session_key uav.session.transcript) t5 uav
        ≡ done none (record uav { session = record uav.session { established = true } })
  unfolding handle_m4
  handle_m4-establishes functional uav id t5 keyed_up = ground (
    arith,
    functional.mac_verify-mac uav.session.session_key
        (uav.session.transcript ++ core.from_string "confirm"),
  )

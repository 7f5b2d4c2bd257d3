-- ===== src/Baseline/Handshake/Request.antt =====
-- BaselineSigAuth.cc, `startPhase2` and the ground station's `handleM1` in an undisturbed handshake.
use uav_omnet.Base.{ℕ, ◌<◌, ◌≡◌, refl, true, some, Bytes, length, ℤ, insert, arith}
use uav_omnet.Core.{IsBigEndian}
use uav_omnet.Wire.{encode_id, decode_id}
use uav_omnet.Wire.RoundTrip.{wire_id, decode_id-encode_id, decode_timestamp-encode_timestamp}
use uav_omnet.Crypto.Signature.{IsCorrect}
use uav_omnet.Crypto.X25519.{X25519KeyPair, x25519_generate}
use uav_omnet.Crypto.Drbg.{Drbg}
use uav_omnet.Crypto.Drbg
use uav_omnet.Protocol.Flow.{done}
use uav_omnet.Protocol.Replay.{timestamp_fresh, offer}
use uav_omnet.Baseline.State.{
  BaselineEnv, BaselineGsSession, BaselineUavSession, BaselineGroundStation, BaselineUav,
  no_baseline_gs_session, no_baseline_uav_session,
}
use uav_omnet.Baseline.GroundStation.{key_of, handle_m1}
use uav_omnet.Baseline.Uav.{start_phase2}
use uav_omnet.Baseline.Handshake.{input_of_b1, transcript_of, message_1, message_2}

module _ {Key : Type 0} (env : BaselineEnv Key) where
  open env use {core, sig_suite, ossl, sha3_256}

  abbrev pub requesting : ℤ → Bytes → ℕ → X25519KeyPair → BaselineUavSession
  requesting id n1 t1 ephemeral = record no_baseline_uav_session {
    n1 = n1;
    t1 = t1;
    ephemeral = ephemeral;
    transcript = input_of_b1 env (encode_id core id) n1 t1 ephemeral.public_key;
  }

  abbrev pub answering : ℤ → Bytes → Bytes → ℕ → ℕ → Bytes → X25519KeyPair → BaselineGsSession
  answering id n1 n2 t1 t2 epk_a ephemeral = record no_baseline_gs_session {
    uav_id = id;
    n1 = n1;
    n2 = n2;
    t1 = t1;
    t2 = t2;
    epk_a = epk_a;
    epk_b = ephemeral.public_key;
    ephemeral = ephemeral;
    transcript = transcript_of env (encode_id core id) n1 n2 t1 t2 epk_a ephemeral.public_key;
  }

  -- A drone that has the ground station's key sends B1.
  pub start_phase2-asks :
      (uav : BaselineUav Key) (t1 : ℕ) (pair gs_key : Key) (n1 seed : Bytes) (rng1 rng2 : Drbg)
      (ephemeral : X25519KeyPair)
      → uav.keypair ≡ some pair
      → uav.gs_public_key ≡ some gs_key
      → Drbg.bytes sha3_256 16 uav.rng ≡ some (n1, rng1)
      → Drbg.bytes sha3_256 32 rng1 ≡ some (seed, rng2)
      → x25519_generate ossl seed ≡ some ephemeral
      → start_phase2 env t1 uav
        ≡ done
            (some (message_1 env uav.uav_id pair n1 t1 ephemeral.public_key))
            (record uav { rng = rng2; session = requesting uav.uav_id n1 t1 ephemeral })
  unfolding start_phase2
  start_phase2-asks uav t1 pair gs_key n1 seed rng1 rng2 ephemeral p k d1 d2 g = ground arith

  -- The ground station answers a fresh B1 of an enrolled drone by B2.
  pub handle_m1-answers :
      (big_endian : IsBigEndian core) (correct : IsCorrect sig_suite)
      (gs : BaselineGroundStation Key) (id : ℤ) (pair uav_pair uav_key : Key) (n1 epk_a : Bytes)
      (t1 t2 : ℕ) (n2 seed : Bytes) (rng1 rng2 : Drbg) (ephemeral : X25519KeyPair)
      → wire_id id ≡ id
      → gs.keypair ≡ some pair
      → key_of id gs ≡ some uav_key
      → sig_suite.key_from_public_bytes (sig_suite.public_key_bytes (some uav_pair)) ≡ some uav_key
      → length epk_a ≡ 32
      → length n1 ≡ 16
      → t1 < 4294967296
      → timestamp_fresh t2 t1 gs.window_ms ≡ true
      → (offer gs.replay n1).1 ≡ true
      → Drbg.bytes sha3_256 16 gs.rng ≡ some (n2, rng1)
      → Drbg.bytes sha3_256 32 rng1 ≡ some (seed, rng2)
      → x25519_generate ossl seed ≡ some ephemeral
      → handle_m1 env (message_1 env id uav_pair n1 t1 epk_a) t2 gs
        ≡ done (some (message_2 env id pair n1 n2 t2 epk_a ephemeral.public_key)) (record gs {
          replay = (offer gs.replay n1).0;
          rng = rng2;
          sessions = insert id (answering id n1 n2 t1 t2 epk_a ephemeral) gs.sessions;
        })
  unfolding handle_m1 key_of
  handle_m1-answers big_endian correct gs id pair uav_pair uav_key n1 epk_a t1 t2 n2 seed rng1 rng2
        ephemeral fits own known imported la ln lt fresh new d1 d2 g =
      let sender_back : decode_id core (encode_id core id) ≡ some id =
        rw (decode_id-encode_id core big_endian id, fits) refl in
      ground (
        arith,
        sender_back,
        decode_timestamp-encode_timestamp core big_endian t1 lt,
        correct.verify-sign uav_pair uav_key (input_of_b1 env (encode_id core id) n1 t1 epk_a)
            imported,
      )

-- ===== src/Protocol/Handshake/Request.antt =====
-- Protocol.cc, `startPhase2` in an undisturbed handshake.
use uav_omnet.Base.{ℕ, ◌≡◌, true, some, Bytes, arith}
use uav_omnet.Crypto.X25519.{X25519KeyPair, x25519_generate}
use uav_omnet.Crypto.Drbg.{Drbg}
use uav_omnet.Crypto.Drbg
use uav_omnet.Fe.Params.{Extractor}
use uav_omnet.Protocol.Flow.{done}
use uav_omnet.Protocol.State.{Env, PufModel, Uav, no_phase2}
use uav_omnet.Protocol.Uav.{start_phase2}
use uav_omnet.Protocol.Handshake.Terms.{auth_key_of, input_of_m1, message_1}

module _ (env : Env) where
  open env use {core, suite, ossl, sha3_256, extractor}

  abbrev pub requested : Uav → Drbg → Bytes → Bytes → ℕ → X25519KeyPair → Uav
  requested uav rng mk n1 t1 ephemeral = record uav {
    rng = rng;
    phase2 = record no_phase2 {
      mk = mk;
      auth_key = auth_key_of env mk;
      n1 = n1;
      t1 = t1;
      tid_at_request = uav.state.tid;
      ephemeral = ephemeral;
      transcript = input_of_m1 env suite.suite_id uav.state.tid n1 t1 ephemeral.public_key;
    };
  }

  -- A provisioned drone whose PUF reproduces its master key sends M1.
  pub start_phase2-runs :
      (puf : PufModel) (uav : Uav) (t1 : ℕ) (fe : Extractor) (noisy mk n1 seed : Bytes)
      (rng1 rng2 rng3 : Drbg) (ephemeral : X25519KeyPair)
      → uav.state.provisioned ≡ true
      → extractor ≡ some fe
      → puf.evaluate_noisy uav.state.challenge fe.required_puf_bits uav.rng ≡ (noisy, rng1)
      → fe.rep noisy uav.state.helper ≡ some (record { mk = mk; ok = true })
      → Drbg.bytes sha3_256 16 rng1 ≡ some (n1, rng2)
      → Drbg.bytes sha3_256 32 rng2 ≡ some (seed, rng3)
      → x25519_generate ossl seed ≡ some ephemeral
      → start_phase2 env puf t1 uav
        ≡ done
            (some (message_1 env uav.uav_id mk uav.state.tid n1 t1 ephemeral.public_key))
            (requested uav rng3 mk n1 t1 ephemeral)
  unfolding start_phase2
  start_phase2-runs puf uav t1 fe noisy mk n1 seed rng1 rng2 rng3 ephemeral p e h r d1 d2 g =
      ground arith

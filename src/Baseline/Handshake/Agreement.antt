-- ===== src/Baseline/Handshake/Agreement.antt =====
-- BaselineSigAuth.cc: the whole handshake, when nobody interferes.
use uav_omnet.Base.{
  ℕ, ◌<◌, ◌≡◌, refl, true, false, none, some, [], ◌∷◌, Bytes, is_empty, length, lookup, insert,
  lookup-insert_self, arith,
}
use uav_omnet.Core.{IsBigEndian}
use uav_omnet.Wire.{Message, encode_id}
use uav_omnet.Wire.RoundTrip.{wire_id}
use uav_omnet.Crypto.Suite.{IsFunctional}
use uav_omnet.Crypto.Signature.{IsCorrect}
use uav_omnet.Crypto.Label
use uav_omnet.Crypto.X25519.{
  IsDiffieHellman, X25519KeyPair, x25519_generate, x25519_derive, x25519_generate-total,
  x25519_derive-agrees,
}
use uav_omnet.Crypto.Drbg.{Drbg}
use uav_omnet.Crypto.Drbg
use uav_omnet.Crypto.Drbg.Stream.{bytes-total, length-bytes}
use uav_omnet.Protocol.Flow.{done}
use uav_omnet.Protocol.Replay.Window.{offer_new}
use uav_omnet.Protocol.Replay.{contains, timestamp_fresh, offer}
use uav_omnet.Baseline.State.{BaselineEnv, BaselineGsSession, BaselineGroundStation, BaselineUav}
use uav_omnet.Baseline.GroundStation.{key_of, handle_m1, handle_m3}
use uav_omnet.Baseline.Uav.{start_phase2, handle_m2, handle_m4}
use uav_omnet.Baseline.Handshake.{
  transcript_of, input_of_b1, session_key_from, message_1, message_2, message_3, message_4,
}
use uav_omnet.Baseline.Handshake.Request.{
  requesting, answering, start_phase2-asks, handle_m1-answers,
}
use uav_omnet.Baseline.Handshake.Answer.{
  confirming, keyed, handle_m2-confirms, handle_m3-confirms, handle_m4-establishes,
}

-- What the two sides rely on: the suites, the key exchange, the hash of the generator and the byte
-- strings do what they document.
pub record IsSound {Key : Type 0} (env : BaselineEnv Key) : Type 0 where
  pub functional : IsFunctional env.sym_suite
  pub correct : IsCorrect env.sig_suite
  pub key_exchange : IsDiffieHellman env.ossl
  pub big_endian : IsBigEndian env.core
  pub hash_positive : (b : Bytes) → 0 < length (env.sha3_256 b)
  pub key_positive : 0 < env.sym_suite.key_len

-- A drone and a ground station that can come to agree: each has a key pair whose public half the other
-- was provisioned with, the drone's id fits the message, neither side has seen the nonce that the other
-- is about to draw, the messages arrive in time, and what is signed is not empty.
pub record IsProvisioned {Key : Type 0} (env : BaselineEnv Key) (uav : BaselineUav Key)
    (gs : BaselineGroundStation Key) (t1 t2 t3 : ℕ) : Type 0 where
  pub uav_pair : Key
  pub uav_public : Key
  pub gs_pair : Key
  pub gs_public : Key
  pub owns_uav : uav.keypair ≡ some uav_pair
  pub owns_gs : gs.keypair ≡ some gs_pair
  pub uav_imported :
      env.sig_suite.key_from_public_bytes (env.sig_suite.public_key_bytes (some uav_pair))
      ≡ some uav_public
  pub gs_imported :
      env.sig_suite.key_from_public_bytes (env.sig_suite.public_key_bytes (some gs_pair))
      ≡ some gs_public
  pub enrolled : key_of uav.uav_id gs ≡ some uav_public
  pub provisioned : uav.gs_public_key ≡ some gs_public
  pub fits : wire_id uav.uav_id ≡ uav.uav_id
  pub signs_something :
      (n1 epk_a : Bytes)
      → is_empty (input_of_b1 env (encode_id env.core uav.uav_id) n1 t1 epk_a) ≡ false
  pub n1 : Bytes
  pub n1_rng : Drbg
  pub draws_n1 : Drbg.bytes env.sha3_256 16 uav.rng ≡ some (n1, n1_rng)
  pub unseen_n1 : contains n1 gs.replay.seen ≡ false
  pub n2 : Bytes
  pub n2_rng : Drbg
  pub draws_n2 : Drbg.bytes env.sha3_256 16 gs.rng ≡ some (n2, n2_rng)
  pub unseen_n2 : contains n2 uav.replay.seen ≡ false
  pub t1_fits : t1 < 4294967296
  pub t2_fits : t2 < 4294967296
  pub b1_in_time : timestamp_fresh t2 t1 gs.window_ms ≡ true
  pub b2_in_time : timestamp_fresh t3 t2 uav.window_ms ≡ true

-- The five steps, each taken on the message and the state that the one before it left, and what both
-- sides hold afterwards.
pub record Established {Key : Type 0} (env : BaselineEnv Key) (uav : BaselineUav Key)
    (gs : BaselineGroundStation Key) (t1 t2 t3 t4 t5 : ℕ) : Type 0 where
  pub b1 : Message
  pub b2 : Message
  pub b3 : Message
  pub b4 : Message
  pub uav1 : BaselineUav Key
  pub uav2 : BaselineUav Key
  pub uav3 : BaselineUav Key
  pub gs1 : BaselineGroundStation Key
  pub gs2 : BaselineGroundStation Key
  pub session : BaselineGsSession
  pub sends_b1 : start_phase2 env t1 uav ≡ done (some b1) uav1
  pub sends_b2 : handle_m1 env b1 t2 gs ≡ done (some b2) gs1
  pub sends_b3 : handle_m2 env b2 t3 uav1 ≡ done (some b3) uav2
  pub sends_b4 : handle_m3 env b3 t4 gs1 ≡ done (some b4) gs2
  pub accepts_b4 : handle_m4 env b4 t5 uav2 ≡ done none uav3
  pub established : uav3.session.established ≡ true
  pub in_session : lookup uav.uav_id gs2.sessions ≡ some session
  pub one_key : session.session_key ≡ uav3.session.session_key
  pub one_transcript : session.transcript ≡ uav3.session.transcript

nonempty : (b : Bytes) → 0 < length b → is_empty b ≡ false
nonempty [] h = absurd (omega arith)
nonempty (x ∷ xs) h = refl

module _ {Key : Type 0} (env : BaselineEnv Key) (sound : IsSound env) where
  open env use {core, sym_suite, ossl, sha3_256}
  open sound use {functional, correct, key_exchange, big_endian, hash_positive, key_positive}

  module _ (uav : BaselineUav Key) (gs : BaselineGroundStation Key) (t1 t2 t3 t4 t5 : ℕ)
      (ready : IsProvisioned env uav gs t1 t2 t3) (seed_a seed_b epk_a epk_b shared : Bytes)
      (rng_a rng_b : Drbg) where
    open ready use {n1, n2, uav_pair, uav_public, gs_pair, gs_public}

    abbrev pair_a : X25519KeyPair
    pair_a = record { secret = seed_a; public_key = epk_a; erased = false }

    abbrev pair_b : X25519KeyPair
    pair_b = record { secret = seed_b; public_key = epk_b; erased = false }

    abbrev transcript : Bytes
    transcript = transcript_of env (encode_id core uav.uav_id) n1 n2 t1 t2 epk_a epk_b

    abbrev key : Bytes
    key = session_key_from env shared transcript

    abbrev session_of : BaselineGsSession
    session_of = answering env uav.uav_id n1 n2 t1 t2 epk_a pair_b

    abbrev uav1_of : BaselineUav Key
    uav1_of = record uav { rng = rng_a; session = requesting env uav.uav_id n1 t1 pair_a }

    abbrev uav2_of : BaselineUav Key
    uav2_of = record uav1_of {
      replay = (offer uav.replay n2).0;
      session = confirming env uav1_of.session n2 shared transcript;
    }

    abbrev gs1_of : BaselineGroundStation Key
    gs1_of = record gs {
      replay = (offer gs.replay n1).0;
      rng = rng_b;
      sessions = insert uav.uav_id session_of gs.sessions;
    }

    establishes_on :
        Drbg.bytes sha3_256 32 ready.n1_rng ≡ some (seed_a, rng_a)
        → Drbg.bytes sha3_256 32 ready.n2_rng ≡ some (seed_b, rng_b)
        → x25519_generate ossl seed_a ≡ some pair_a
        → x25519_generate ossl seed_b ≡ some pair_b
        → length epk_a ≡ 32
        → length epk_b ≡ 32
        → x25519_derive ossl seed_a epk_b ≡ some shared
        → x25519_derive ossl seed_b epk_a ≡ some shared
        → length n1 ≡ 16
        → length n2 ≡ 16
        → Established env uav gs t1 t2 t3 t4 t5
    establishes_on draws_a draws_b generates_a generates_b length_a length_b derives_a derives_b
          length_n1 length_n2 =
        let size_key = functional.length-kdf shared transcript Label.p2_sess [] sym_suite.key_len in
        let keyed_up = nonempty key (omega (arith, size_key, key_positive)) in
        record {
          b1 = message_1 env uav.uav_id uav_pair n1 t1 epk_a;
          b2 = message_2 env uav.uav_id gs_pair n1 n2 t2 epk_a epk_b;
          b3 = message_3 env uav.uav_id key transcript;
          b4 = message_4 env uav.uav_id key transcript;
          uav1 = uav1_of;
          uav2 = uav2_of;
          uav3 = record uav2_of { session = record uav2_of.session { established = true } };
          gs1 = gs1_of;
          gs2 = record gs1_of {
            sessions = insert uav.uav_id (keyed env session_of shared) gs1_of.sessions;
          };
          session = keyed env session_of shared;
          sends_b1 =
              start_phase2-asks env uav t1 uav_pair gs_public n1 seed_a ready.n1_rng rng_a pair_a
                ready.owns_uav ready.provisioned ready.draws_n1 draws_a generates_a;
          sends_b2 =
              handle_m1-answers env big_endian correct gs uav.uav_id gs_pair uav_pair uav_public n1
                epk_a t1 t2 n2 seed_b ready.n2_rng rng_b pair_b ready.fits ready.owns_gs
                ready.enrolled ready.uav_imported length_a length_n1 ready.t1_fits ready.b1_in_time
                (offer_new gs.replay n1 ready.unseen_n1) ready.draws_n2 draws_b generates_b;
          sends_b3 =
              handle_m2-confirms env big_endian correct uav1_of gs_pair gs_public n1 n2 epk_b shared
                t1 t2 t3 ready.provisioned ready.gs_imported refl (ready.signs_something n1 epk_a)
                refl length_b length_n2 ready.t2_fits ready.b2_in_time
                (offer_new uav.replay n2 ready.unseen_n2) derives_a;
          sends_b4 =
              handle_m3-confirms env functional gs1_of session_of uav.uav_id shared t4
                (lookup-insert_self uav.uav_id session_of gs.sessions) refl derives_b;
          accepts_b4 = handle_m4-establishes env functional uav2_of uav.uav_id t5 keyed_up;
          established = refl;
          in_session = lookup-insert_self uav.uav_id (keyed env session_of shared) gs1_of.sessions;
          one_key = refl;
          one_transcript = refl;
        }

  -- A drone and a ground station that were provisioned with each other's public keys run the handshake
  -- to its end: no step rejects, faults or runs out of fuel, and afterwards the drone is established
  -- and both sides hold one transcript and one session key.
  pub handshake_establishes :
      (uav : BaselineUav Key) (gs : BaselineGroundStation Key) (t1 t2 t3 t4 t5 : ℕ)
      → IsProvisioned env uav gs t1 t2 t3
      → Established env uav gs t1 t2 t3 t4 t5
  handshake_establishes uav gs t1 t2 t3 t4 t5 ready =
      let (seed_a, rng_a, draws_a, size_a) = bytes-total sha3_256 hash_positive 32 ready.n1_rng in
      let (seed_b, rng_b, draws_b, size_b) = bytes-total sha3_256 hash_positive 32 ready.n2_rng in
      let (epk_a, public_a, length_a, generates_a) =
        x25519_generate-total ossl key_exchange seed_a size_a in
      let (epk_b, public_b, length_b, generates_b) =
        x25519_generate-total ossl key_exchange seed_b size_b in
      let (shared, derives_a, derives_b) =
        x25519_derive-agrees ossl key_exchange seed_a seed_b epk_a epk_b size_a size_b length_a
          length_b public_a public_b in
      establishes_on uav gs t1 t2 t3 t4 t5 ready seed_a seed_b epk_a epk_b shared rng_a rng_b
        draws_a draws_b generates_a generates_b length_a length_b derives_a derives_b
        (length-bytes sha3_256 hash_positive 16 uav.rng ready.n1 ready.n1_rng ready.draws_n1)
        (length-bytes sha3_256 hash_positive 16 gs.rng ready.n2 ready.n2_rng ready.draws_n2)

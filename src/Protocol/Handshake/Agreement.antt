-- ===== src/Protocol/Handshake/Agreement.antt =====
-- Protocol.cc: the whole of Phase 2, when nobody interferes.
use uav_omnet.Base.{
  ℕ, ◌+◌, ◌<◌, ◌≡◌, refl, true, false, none, some, [], ◌∷◌, ◌++◌, Bytes, is_empty, length,
  length-take, length-drop, ℤ, lookup, lookup-insert_self, arith,
}
use uav_omnet.Core.{IsBigEndian}
use uav_omnet.Wire.{Message}
use uav_omnet.Crypto.Suite.{IsFunctional}
use uav_omnet.Crypto.X25519.{
  IsDiffieHellman, X25519KeyPair, x25519_generate, x25519_derive, x25519_generate-total,
  x25519_derive-agrees,
}
use uav_omnet.Crypto.Label
use uav_omnet.Crypto.Drbg.{Drbg}
use uav_omnet.Crypto.Drbg
use uav_omnet.Crypto.Drbg.Stream.{bytes-total, length-bytes}
use uav_omnet.Fe.Params.{Extractor}
use uav_omnet.Protocol.Flow.{done}
use uav_omnet.Protocol.Replay.Window.{offer_new}
use uav_omnet.Protocol.Replay.{contains, timestamp_fresh}
use uav_omnet.Protocol.Credentials.{Package}
use uav_omnet.Protocol.Credentials.RoundTrip.{unpack_credentials-pack_credentials}
use uav_omnet.Protocol.State.{Env, PufModel, DeviceRecord, Phase2GsSession, GroundStation, Uav}
use uav_omnet.Protocol.Uav.{start_phase2, handle_m2, handle_m4}
use uav_omnet.Protocol.GroundStation.{
  find_by_tid, session_key_for, handle_m1, handle_m3, credentials_for, tids_for,
}
use uav_omnet.Protocol.Handshake.Terms.{
  message_1, message_2, message_3, message_4, session_key_of, aead_key_of, aead_nonce_of, aad_of,
}
use uav_omnet.Protocol.Handshake.Request.{requested, start_phase2-runs}
use uav_omnet.Protocol.Handshake.Answer.{
  answering, answered, confirmed, handle_m1-runs, handle_m2-runs,
}
use uav_omnet.Protocol.Handshake.Deliver.{
  rotated, delivered, plaintext_for, finished, handle_m3-runs, handle_m4-runs,
}
use uav_omnet.Protocol.Handshake.Registry.{
  Registered, lookup-find_by_tid, credentials_for-Aligned, length-credentials_for,
}

-- What the two sides rely on: the suite, the key exchange, the hash of the generator and the byte
-- strings do what they document.
pub record IsWorking (env : Env) : Type 0 where
  pub functional : IsFunctional env.suite
  pub key_exchange : IsDiffieHellman env.ossl
  pub big_endian : IsBigEndian env.core
  pub hash_positive : (b : Bytes) → 0 < length (env.sha3_256 b)
  pub key_positive : 0 < env.suite.key_len
  pub key_short : env.suite.key_len < 65536

-- A drone and a ground station that can come to agree: the drone is provisioned, its PUF and helper
-- data reproduce the master key of a record that the ground station finds under its identity,
-- neither side has seen the nonce that the other is about to draw, and the messages arrive in time.
pub record IsReady (env : Env) (puf : PufModel) (uav : Uav) (gs : GroundStation)
    (rec : DeviceRecord) (t1 t2 t3 : ℕ) : Type 0 where
  pub provisioned : uav.state.provisioned ≡ true
  pub fe : Extractor
  pub noisy : Bytes
  pub rng : Drbg
  pub has_extractor : env.extractor ≡ some fe
  pub evaluates : puf.evaluate_noisy uav.state.challenge fe.required_puf_bits uav.rng ≡ (noisy, rng)
  pub reproduces : fe.rep noisy uav.state.helper ≡ some (record { mk = rec.mk; ok = true })
  pub known : find_by_tid uav.state.tid gs.devices ≡ some rec
  pub registered : Registered 0 gs.devices
  pub n1 : Bytes
  pub n1_rng : Drbg
  pub draws_n1 : Drbg.bytes env.sha3_256 16 rng ≡ some (n1, n1_rng)
  pub unseen_n1 : contains n1 gs.replay.seen ≡ false
  pub n2 : Bytes
  pub n2_rng : Drbg
  pub draws_n2 : Drbg.bytes env.sha3_256 16 gs.rng ≡ some (n2, n2_rng)
  pub unseen_n2 : contains n2 uav.replay.seen ≡ false
  pub t1_fits : t1 < 4294967296
  pub t2_fits : t2 < 4294967296
  pub m1_in_time : timestamp_fresh t2 t1 gs.window_ms ≡ true
  pub m2_in_time : timestamp_fresh t3 t2 uav.window_ms ≡ true

-- The five steps, each taken on the message and the state that the one before it left, and what both
-- sides hold afterwards.
pub record Agreement (env : Env) (puf : PufModel) (uav : Uav) (gs : GroundStation)
    (rec : DeviceRecord) (t1 t2 t3 t4 t5 : ℕ) : Type 0 where
  pub m1 : Message
  pub m2 : Message
  pub m3 : Message
  pub m4 : Message
  pub uav1 : Uav
  pub uav2 : Uav
  pub uav3 : Uav
  pub gs1 : GroundStation
  pub gs2 : GroundStation
  pub sends_m1 : start_phase2 env puf t1 uav ≡ done (some m1) uav1
  pub sends_m2 : handle_m1 env m1 t2 gs ≡ done (some m2) gs1
  pub sends_m3 : handle_m2 env m2 t3 uav1 ≡ done (some m3) uav2
  pub sends_m4 : handle_m3 env m3 t4 gs1 ≡ done (some m4) gs2
  pub accepts_m4 : handle_m4 env m4 t5 uav2 ≡ done none uav3
  pub established : uav3.phase2.established ≡ true
  pub one_key : session_key_for rec.uav_id gs2 ≡ some uav3.phase2.session_key
  pub credentials :
      uav3.phase2.peer_credentials ≡ credentials_for env gs.gs_master_key rec.uav_id gs.devices
  pub one_tid : lookup rec.uav_id gs2.devices ≡ some (record rec { pending_tid = uav3.state.tid })

nonempty : (b : Bytes) → 0 < length b → is_empty b ≡ false
nonempty [] h = absurd (omega arith)
nonempty (x ∷ xs) h = refl

session_key_for-found :
    (id : ℤ) (gs : GroundStation) (session : Phase2GsSession)
    → lookup id gs.sessions ≡ some session
    → is_empty session.session_key ≡ false
    → session_key_for id gs ≡ some session.session_key
unfolding session_key_for
session_key_for-found id gs session found keyed_up = ground arith

module _ (env : Env) (works : IsWorking env) where
  open env use {core, suite, ossl, sha3_256}
  open works use {functional, key_exchange, big_endian, hash_positive, key_positive, key_short}

  -- The seal of the package opens again under the same session key.
  package_opens :
      (key aad plaintext : Bytes)
      → (ciphertext : Bytes) × (suite.aead_seal
            (aead_key_of env key)
            (aead_nonce_of env key)
            aad
            plaintext
          ≡ some ciphertext)
        × (suite.aead_open (aead_key_of env key) (aead_nonce_of env key) aad ciphertext
            ≡ some plaintext)
  package_opens key aad plaintext =
      let both = suite.aead_key_len + suite.aead_nonce_len in
      let stream = suite.kdf key [] Label.p2_aead [] both in
      let size = functional.length-kdf key [] Label.p2_aead [] both in
      functional.aead_open-aead_seal _ _ aad plaintext
        (length-take suite.aead_key_len stream (omega (arith, size)))
        (omega (arith, size, length-drop suite.aead_key_len stream))

  module _ (puf : PufModel) (uav : Uav) (gs : GroundStation) (rec : DeviceRecord)
      (t1 t2 t3 t4 t5 : ℕ) (ready : IsReady env puf uav gs rec t1 t2 t3)
      (seed_a seed_b epk_a epk_b shared : Bytes) (rng_a rng_b : Drbg) where
    open ready use {n1, n2}

    abbrev pair_a : X25519KeyPair
    pair_a = record { secret = seed_a; public_key = epk_a; erased = false }

    abbrev pair_b : X25519KeyPair
    pair_b = record { secret = seed_b; public_key = epk_b; erased = false }

    abbrev session : Phase2GsSession
    session = answering env rec uav.state.tid n1 n2 t1 t2 epk_a pair_b

    abbrev key : Bytes
    key = session_key_of env rec.mk shared session.transcript

    abbrev uav1_of : Uav
    uav1_of = requested env uav rng_a rec.mk n1 t1 pair_a

    abbrev uav2_of : Uav
    uav2_of = confirmed env uav1_of n2 rec.mk shared session.transcript

    abbrev gs1_of : GroundStation
    gs1_of = answered gs rng_b n1 rec session

    abbrev package_of : Package
    package_of = record {
      creds = credentials_for env gs.gs_master_key rec.uav_id gs.devices;
      tids = tids_for env rec.uav_id gs.devices;
      tid_new = rotated env rec n1 n2;
    }

    agrees_on :
        Drbg.bytes sha3_256 32 ready.n1_rng ≡ some (seed_a, rng_a)
        → Drbg.bytes sha3_256 32 ready.n2_rng ≡ some (seed_b, rng_b)
        → x25519_generate ossl seed_a ≡ some pair_a
        → x25519_generate ossl seed_b ≡ some pair_b
        → length epk_a ≡ 32
        → length epk_b ≡ 32
        → x25519_derive ossl seed_a epk_b ≡ some shared
        → x25519_derive ossl seed_b epk_a ≡ some shared
        → length n1 ≡ 16
        → length n2 ≡ 16
        → Agreement env puf uav gs rec t1 t2 t3 t4 t5
    agrees_on draws_a draws_b generates_a generates_b length_a length_b derives_a derives_b
          length_n1 length_n2 =
        let found =
          lookup-find_by_tid 0 uav.state.tid gs.devices rec ready.registered ready.known in
        let size_tid = functional.length-kdf rec.mk rec.tid Label.tid_rotate (n1 ++ n2) 16 in
        let size_key =
          functional.length-kdf (rec.mk ++ shared) session.transcript Label.p2_sess []
            suite.key_len in
        let keyed_up = nonempty key (omega (arith, size_key, key_positive)) in
        let renamed = nonempty package_of.tid_new (omega (arith, size_tid)) in
        let (ciphertext, sealed, opened) =
          package_opens key (aad_of env suite.suite_id uav.state.tid n1 n2)
            (plaintext_for env gs1_of rec n1 n2) in
        let unpacked =
          unpack_credentials-pack_credentials core big_endian package_of.creds package_of.tids
            package_of.tid_new
            (credentials_for-Aligned env functional key_short gs.gs_master_key rec.uav_id 0
              gs.devices ready.registered)
            (omega (
              arith,
              length-credentials_for env functional key_short gs.gs_master_key rec.uav_id 0
                  gs.devices ready.registered (omega arith),
            ))
            (omega (arith, size_tid)) in
        record {
          m1 = message_1 env uav.uav_id rec.mk uav.state.tid n1 t1 epk_a;
          m2 = message_2 env suite.suite_id rec.uav_id rec.mk uav.state.tid n1 n2 t2 epk_a epk_b;
          m3 = message_3 env suite.suite_id uav.uav_id rec.mk uav.state.tid session.transcript;
          m4 = message_4 env suite.suite_id rec.uav_id (aead_nonce_of env key) ciphertext;
          uav1 = uav1_of;
          uav2 = uav2_of;
          uav3 = finished uav2_of package_of;
          gs1 = gs1_of;
          gs2 = delivered env gs1_of rec session shared;
          sends_m1 =
              start_phase2-runs env puf uav t1 ready.fe ready.noisy rec.mk n1 seed_a ready.rng
                ready.n1_rng rng_a pair_a ready.provisioned ready.has_extractor ready.evaluates
                ready.reproduces ready.draws_n1 draws_a generates_a;
          sends_m2 =
              handle_m1-runs env functional big_endian gs rec uav.uav_id uav.state.tid n1 epk_a t1
                t2 n2 seed_b ready.n2_rng rng_b pair_b length_a length_n1 ready.t1_fits
                ready.m1_in_time (offer_new gs.replay n1 ready.unseen_n1) ready.known ready.draws_n2
                draws_b generates_b;
          sends_m3 =
              handle_m2-runs env functional big_endian uav1_of rec.uav_id rec.mk n1 n2 epk_b shared
                t1 t2 t3 refl refl key_positive refl refl length_b length_n2 ready.t2_fits
                ready.m2_in_time (offer_new uav.replay n2 ready.unseen_n2) derives_a;
          sends_m4 =
              handle_m3-runs env functional gs1_of rec session uav.uav_id uav.state.tid shared
                ciphertext t4 ready.known found (lookup-insert_self rec.uav_id session gs.sessions)
                refl derives_b sealed;
          accepts_m4 =
              handle_m4-runs env functional uav2_of rec.uav_id key ciphertext
                (plaintext_for env gs1_of rec n1 n2) t5 package_of refl keyed_up opened unpacked;
          established = refl;
          one_key =
              session_key_for-found rec.uav_id (delivered env gs1_of rec session shared) _
                (lookup-insert_self rec.uav_id _ _) keyed_up;
          credentials = refl;
          one_tid = rw (renamed, finished) (lookup-insert_self rec.uav_id _ gs.devices);
        }

  -- The ground station and the drone that are ready run Phase 2 to its end: no step rejects, faults or
  -- runs out of fuel, and afterwards the drone is established, both hold one session key, the drone
  -- holds the credential with every other device, and its new identity is the one that the ground
  -- station keeps as pending.
  pub phase2_agrees :
      (puf : PufModel) (uav : Uav) (gs : GroundStation) (rec : DeviceRecord) (t1 t2 t3 t4 t5 : ℕ)
      → IsReady env puf uav gs rec t1 t2 t3
      → Agreement env puf uav gs rec t1 t2 t3 t4 t5
  phase2_agrees puf uav gs rec t1 t2 t3 t4 t5 ready =
      let (seed_a, rng_a, draws_a, size_a) = bytes-total sha3_256 hash_positive 32 ready.n1_rng in
      let (seed_b, rng_b, draws_b, size_b) = bytes-total sha3_256 hash_positive 32 ready.n2_rng in
      let (epk_a, public_a, length_a, generates_a) =
        x25519_generate-total ossl key_exchange seed_a size_a in
      let (epk_b, public_b, length_b, generates_b) =
        x25519_generate-total ossl key_exchange seed_b size_b in
      let (shared, derives_a, derives_b) =
        x25519_derive-agrees ossl key_exchange seed_a seed_b epk_a epk_b size_a size_b length_a
          length_b public_a public_b in
      agrees_on puf uav gs rec t1 t2 t3 t4 t5 ready seed_a seed_b epk_a epk_b shared rng_a rng_b
        draws_a draws_b generates_a generates_b length_a length_b derives_a derives_b
        (length-bytes sha3_256 hash_positive 16 ready.rng ready.n1 ready.n1_rng ready.draws_n1)
        (length-bytes sha3_256 hash_positive 16 gs.rng ready.n2 ready.n2_rng ready.draws_n2)

-- ===== src/Protocol/Pairing/Agreement.antt =====
-- Protocol.cc: the whole of Phase 3 between two drones that hold one credential.
use uav_omnet.Base.{
  ℕ, ◌%◌, ◌<◌, ◌≡◌, refl, true, false, none, some, Bytes, length, ℤ, pos, lookup, insert,
  lookup-insert_self, arith,
}
use uav_omnet.Wire.{Message, encode_id, decode_id}
use uav_omnet.Wire.RoundTrip.{decode_id-encode_id}
use uav_omnet.Crypto.X25519.{
  X25519KeyPair, x25519_generate, x25519_derive, x25519_generate-total, x25519_derive-agrees,
}
use uav_omnet.Crypto.Drbg.{Drbg}
use uav_omnet.Crypto.Drbg
use uav_omnet.Crypto.Drbg.Stream.{bytes-total}
use uav_omnet.Protocol.Flow.{done}
use uav_omnet.Protocol.Replay.Window.{offer_new}
use uav_omnet.Protocol.Replay.{contains, offer, timestamp_fresh}
use uav_omnet.Protocol.State.{Env, Phase3Session, Uav}
use uav_omnet.Protocol.Peer.{start_phase3, handle_p1, handle_p2, handle_p3, peer_session_key}
use uav_omnet.Protocol.Handshake.Agreement.{IsWorking}
use uav_omnet.Protocol.Pairing.Terms.{
  message_p1, message_p2, message_p3, initiating, responding, completed, answered_session,
}
use uav_omnet.Protocol.Pairing.Steps.{
  start_phase3-runs, handle_p1-runs, handle_p2-runs, handle_p3-runs,
}

-- Two drones that can come to agree: their ids fit the wire, each holds the same credential for the
-- other, the responder has not seen the nonce that the initiator is about to draw, and P1 arrives in
-- time.
pub record ArePaired (env : Env) (a b : ℕ) (alice bob : Uav) (t1 t2 : ℕ) : Type 0 where
  pub alice_id : alice.uav_id ≡ pos a
  pub bob_id : bob.uav_id ≡ pos b
  pub a_fits : a < 65535
  pub cred : Bytes
  pub alice_cred : lookup (pos b) alice.phase2.peer_credentials ≡ some cred
  pub bob_cred : lookup (pos a) bob.phase2.peer_credentials ≡ some cred
  pub n1 : Bytes
  pub n1_rng : Drbg
  pub draws_n1 : Drbg.bytes env.sha3_256 16 alice.rng ≡ some (n1, n1_rng)
  pub unseen_n1 : contains n1 bob.replay.seen ≡ false
  pub t1_fits : t1 < 4294967296
  pub p1_in_time : timestamp_fresh t2 t1 bob.window_ms ≡ true

-- The four steps, each taken on the message and the state that the one before it left, and the key
-- that both drones hold afterwards.
pub record PeerAgreement (env : Env) (a b : ℕ) (alice bob : Uav) (t1 t2 t3 t4 : ℕ) : Type 0 where
  pub p1 : Message
  pub p2 : Message
  pub p3 : Message
  pub alice1 : Uav
  pub alice2 : Uav
  pub bob1 : Uav
  pub bob2 : Uav
  pub sends_p1 : start_phase3 env (pos b) t1 alice ≡ done (some p1) alice1
  pub sends_p2 : handle_p1 env p1 t2 bob ≡ done (some p2) bob1
  pub sends_p3 : handle_p2 env p2 t3 alice1 ≡ done (some p3) alice2
  pub accepts_p3 : handle_p3 env p3 t4 bob1 ≡ done none bob2
  pub key : Bytes
  pub alice_key : peer_session_key (pos b) alice2 ≡ some key
  pub bob_key : peer_session_key (pos a) bob2 ≡ some key

peer_session_key-held :
    (id : ℤ) (uav : Uav) (session : Phase3Session)
    → lookup id uav.peers ≡ some session
    → session.established ≡ true
    → peer_session_key id uav ≡ some session.session_key
unfolding peer_session_key
peer_session_key-held id uav session held done_so = ground arith

module _ (env : Env) (works : IsWorking env) where
  open env use {core, suite, ossl, sha3_256}
  open works use {functional, key_exchange, big_endian, hash_positive}

  id_survives : (n : ℕ) → n < 65535 → decode_id core (encode_id core (pos n)) ≡ some (pos n)
  id_survives n h =
      let e : n % 65536 ≡ n = omega arith in
      ground (arith, decode_id-encode_id core big_endian (pos n))

  module _ (a b : ℕ) (alice bob : Uav) (t1 t2 t3 t4 : ℕ)
      (paired : ArePaired env a b alice bob t1 t2) (seed_a seed_b epk_a epk_b shared n2 : Bytes)
      (rng_a n2_rng rng_b : Drbg) where
    open paired use {n1, cred}

    abbrev pair_a : X25519KeyPair
    pair_a = record { secret = seed_a; public_key = epk_a; erased = false }

    abbrev pair_b : X25519KeyPair
    pair_b = record { secret = seed_b; public_key = epk_b; erased = false }

    abbrev started : Phase3Session
    started = initiating env (pos a) (pos b) cred n1 t1 pair_a

    abbrev answered : Phase3Session
    answered = answered_session env started n2 epk_b

    abbrev responded : Phase3Session
    responded = responding env (pos a) (pos b) cred n1 n2 t1 epk_a pair_b

    abbrev alice1_of : Uav
    alice1_of = record alice { rng = rng_a; peers = insert (pos b) started alice.peers }

    abbrev bob1_of : Uav
    bob1_of = record bob {
      replay = (offer bob.replay n1).0;
      rng = rng_b;
      peers = insert (pos a) responded bob.peers;
    }

    agrees_on :
        Drbg.bytes sha3_256 32 paired.n1_rng ≡ some (seed_a, rng_a)
        → Drbg.bytes sha3_256 16 bob.rng ≡ some (n2, n2_rng)
        → Drbg.bytes sha3_256 32 n2_rng ≡ some (seed_b, rng_b)
        → x25519_generate ossl seed_a ≡ some pair_a
        → x25519_generate ossl seed_b ≡ some pair_b
        → length epk_b ≡ 32
        → x25519_derive ossl seed_a epk_b ≡ some shared
        → x25519_derive ossl seed_b epk_a ≡ some shared
        → PeerAgreement env a b alice bob t1 t2 t3 t4
    agrees_on draws_a draws_n2 draws_b generates_a generates_b length_b derives_a derives_b =
        record {
          p1 = message_p1 env (pos a) (pos b) cred n1 t1 epk_a;
          p2 = message_p2 env (pos a) (pos b) cred n1 n2 epk_a epk_b;
          p3 = message_p3 env (pos a) (pos b) cred answered.p1_encoded answered.p2_encoded;
          alice1 = alice1_of;
          alice2 = record alice1_of {
            peers = insert (pos b) (completed env answered cred shared) (
                insert (pos b) answered (
                  insert (pos b) (record started { nonce_remote = n2; epk_remote = epk_b })
                    alice1_of.peers));
          };
          bob1 = bob1_of;
          bob2 = record bob1_of {
            peers = insert (pos a) (completed env responded cred shared) bob1_of.peers;
          };
          sends_p1 = ground (
            arith,
            start_phase3-runs env functional big_endian alice (pos b) t1 cred n1 seed_a
                paired.n1_rng rng_a pair_a paired.alice_cred paired.draws_n1 draws_a generates_a,
          );
          sends_p2 = ground (
            arith,
            handle_p1-runs env functional big_endian bob (pos a) t1 t2 cred n1 n2 epk_a seed_b
                n2_rng rng_b pair_b (id_survives a paired.a_fits) paired.t1_fits paired.p1_in_time
                (offer_new bob.replay n1 paired.unseen_n1) paired.bob_cred draws_n2 draws_b
                generates_b,
          );
          sends_p3 =
              handle_p2-runs env functional big_endian alice1_of (pos b) t3 cred n1 n2 epk_b shared
                started (lookup-insert_self (pos b) started alice.peers) refl refl refl refl
                paired.alice_cred length_b derives_a;
          accepts_p3 =
              handle_p3-runs env functional big_endian bob1_of (pos a) (pos b) t4 cred shared
                responded (lookup-insert_self (pos a) responded bob.peers) refl refl refl
                paired.bob_cred derives_b;
          key = (completed env answered cred shared).session_key;
          alice_key = peer_session_key-held (pos b) _ _ (lookup-insert_self (pos b) _ _) refl;
          bob_key = peer_session_key-held (pos a) _ _ (lookup-insert_self (pos a) _ _) refl;
        }

  -- Two drones with one credential run Phase 3 to its end: no step rejects, faults or runs out of
  -- fuel, and both then hold the same session key for one another.
  pub phase3_agrees :
      (a b : ℕ) (alice bob : Uav) (t1 t2 t3 t4 : ℕ)
      → ArePaired env a b alice bob t1 t2
      → PeerAgreement env a b alice bob t1 t2 t3 t4
  phase3_agrees a b alice bob t1 t2 t3 t4 paired =
      let (seed_a, rng_a, draws_a, size_a) = bytes-total sha3_256 hash_positive 32 paired.n1_rng in
      let (n2, n2_rng, draws_n2, size_n2) = bytes-total sha3_256 hash_positive 16 bob.rng in
      let (seed_b, rng_b, draws_b, size_b) = bytes-total sha3_256 hash_positive 32 n2_rng in
      let (epk_a, public_a, length_a, generates_a) =
        x25519_generate-total ossl key_exchange seed_a size_a in
      let (epk_b, public_b, length_b, generates_b) =
        x25519_generate-total ossl key_exchange seed_b size_b in
      let (shared, derives_a, derives_b) =
        x25519_derive-agrees ossl key_exchange seed_a seed_b epk_a epk_b size_a size_b length_a
          length_b public_a public_b in
      agrees_on a b alice bob t1 t2 t3 t4 paired seed_a seed_b epk_a epk_b shared n2 rng_a n2_rng
        rng_b draws_a draws_n2 draws_b generates_a generates_b length_b derives_a derives_b

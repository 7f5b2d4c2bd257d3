-- ===== src/Protocol/Pairing/Steps.antt =====
-- Protocol.cc, `startPhase3`, `handleP1`, `handleP2` and `handleP3` in an undisturbed exchange.
use uav_omnet.Base.{ℕ, ◌<◌, ◌≡◌, true, false, none, some, Bytes, length, ℤ, lookup, insert, arith}
use uav_omnet.Core.{IsBigEndian}
use uav_omnet.Wire.{encode_id, decode_id}
use uav_omnet.Wire.RoundTrip.{decode_timestamp-encode_timestamp}
use uav_omnet.Crypto.Suite.{IsFunctional}
use uav_omnet.Crypto.X25519.{X25519KeyPair, x25519_generate, x25519_derive}
use uav_omnet.Crypto.Drbg.{Drbg}
use uav_omnet.Crypto.Drbg
use uav_omnet.Protocol.Flow.{done}
use uav_omnet.Protocol.Replay.{timestamp_fresh, offer}
use uav_omnet.Protocol.State.{Env, Phase3Session, Uav}
use uav_omnet.Protocol.Peer.{start_phase3, handle_p1, handle_p2, handle_p3}
use uav_omnet.Protocol.Pairing.Terms.{
  peer_key_of, input_of_p1, input_of_p2, input_of_p3, message_p1, message_p2, message_p3,
  initiating, responding, completed, answered_session,
}

module _ (env : Env) (functional : IsFunctional env.suite) (big_endian : IsBigEndian env.core) where
  open env use {core, suite, ossl, sha3_256}

  pub start_phase3-runs :
      (uav : Uav) (b : ℤ) (t1 : ℕ) (cred n1 seed : Bytes) (rng1 rng2 : Drbg)
      (ephemeral : X25519KeyPair)
      → lookup b uav.phase2.peer_credentials ≡ some cred
      → Drbg.bytes sha3_256 16 uav.rng ≡ some (n1, rng1)
      → Drbg.bytes sha3_256 32 rng1 ≡ some (seed, rng2)
      → x25519_generate ossl seed ≡ some ephemeral
      → start_phase3 env b t1 uav
        ≡ done (some (message_p1 env uav.uav_id b cred n1 t1 ephemeral.public_key)) (record uav {
          rng = rng2;
          peers = insert b (initiating env uav.uav_id b cred n1 t1 ephemeral) uav.peers;
        })
  unfolding start_phase3
  start_phase3-runs uav b t1 cred n1 seed rng1 rng2 ephemeral has_cred d1 d2 g = ground arith

  pub handle_p1-runs :
      (uav : Uav) (a : ℤ) (t1 t2 : ℕ) (cred n1 n2 epk_a seed : Bytes) (rng1 rng2 : Drbg)
      (ephemeral : X25519KeyPair)
      → decode_id core (encode_id core a) ≡ some a
      → t1 < 4294967296
      → timestamp_fresh t2 t1 uav.window_ms ≡ true
      → (offer uav.replay n1).1 ≡ true
      → lookup a uav.phase2.peer_credentials ≡ some cred
      → Drbg.bytes sha3_256 16 uav.rng ≡ some (n2, rng1)
      → Drbg.bytes sha3_256 32 rng1 ≡ some (seed, rng2)
      → x25519_generate ossl seed ≡ some ephemeral
      → handle_p1 env (message_p1 env a uav.uav_id cred n1 t1 epk_a) t2 uav
        ≡ done
            (some (message_p2 env a uav.uav_id cred n1 n2 epk_a ephemeral.public_key))
            (record uav {
              replay = (offer uav.replay n1).0;
              rng = rng2;
              peers =
                  insert a (responding env a uav.uav_id cred n1 n2 t1 epk_a ephemeral) uav.peers;
            })
  unfolding handle_p1
  handle_p1-runs uav a t1 t2 cred n1 n2 epk_a seed rng1 rng2 ephemeral named lt in_time new has_cred
        d1 d2 g =
      ground (
        arith,
        decode_timestamp-encode_timestamp core big_endian t1 lt,
        functional.mac_verify-mac (peer_key_of env cred) (input_of_p1 env a uav.uav_id n1 t1 epk_a),
      )

  pub handle_p2-runs :
      (uav : Uav) (b : ℤ) (t3 : ℕ) (cred n1 n2 epk_b shared : Bytes) (session : Phase3Session)
      → lookup b uav.peers ≡ some session
      → session.initiator ≡ true
      → session.peer_id ≡ b
      → session.nonce_local ≡ n1
      → session.auth_key ≡ peer_key_of env cred
      → lookup b uav.phase2.peer_credentials ≡ some cred
      → length epk_b ≡ 32
      → x25519_derive ossl session.ephemeral.secret epk_b ≡ some shared
      → let session' = answered_session env session n2 epk_b in
        handle_p2 env (message_p2 env session.local_id b cred n1 n2 session.epk_local epk_b) t3 uav
        ≡ done
            (some (message_p3 env session.local_id b cred session'.p1_encoded session'.p2_encoded))
            (record uav {
              peers = insert b (completed env session' cred shared) (
                  insert b session' (
                    insert b (record session { nonce_remote = n2; epk_remote = epk_b }) uav.peers));
            })
  unfolding handle_p2
  handle_p2-runs uav b t3 cred n1 n2 epk_b shared session held own to_b nonce key has_cred lb dh =
      ground (
        arith,
        functional.mac_verify-mac (peer_key_of env cred)
            (input_of_p2 env session.local_id b n1 n2 session.epk_local epk_b),
      )

  pub handle_p3-runs :
      (uav : Uav) (a b : ℤ) (t4 : ℕ) (cred shared : Bytes) (session : Phase3Session)
      → lookup a uav.peers ≡ some session
      → session.initiator ≡ false
      → session.peer_id ≡ a
      → session.auth_key ≡ peer_key_of env cred
      → lookup a uav.phase2.peer_credentials ≡ some cred
      → x25519_derive ossl session.ephemeral.secret session.epk_remote ≡ some shared
      → handle_p3 env (message_p3 env a b cred session.p1_encoded session.p2_encoded) t4 uav
        ≡ done none (record uav { peers = insert a (completed env session cred shared) uav.peers })
  unfolding handle_p3
  handle_p3-runs uav a b t4 cred shared session held own to_a key has_cred dh = ground (
    arith,
    functional.mac_verify-mac (peer_key_of env cred)
        (input_of_p3 env session.p1_encoded session.p2_encoded),
  )

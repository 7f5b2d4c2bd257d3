-- ===== src/Protocol/Safety/Peers.antt =====
-- Protocol.cc, `handleP1`, `handleP2` and `handleP3` of a drone against any message.
use uav_omnet.Base.{
  or_empty, ℕ, ◌≡◌, refl, true, false, Option, none, some, [], ◌∷◌, ◌++◌, Bytes, ℤ, min_ℤ_comm,
  max_ℤ_comm, lookup, insert, lookup-insert_self, arith,
}
use uav_omnet.Core.{FieldId, empty_fields, of_list}
use uav_omnet.Wire.{MessageType, Message, mac_input, encode_id}
use uav_omnet.Crypto.X25519.{x25519_derive}
use uav_omnet.Crypto.X25519
use uav_omnet.Protocol.Flow.{done}
use uav_omnet.Protocol.State.{Env, Uav, Phase3Session, no_peer_session}
use uav_omnet.Protocol.GroundStation.{pair_credential}
use uav_omnet.Protocol.Peer.{handle_p2, handle_p3, peer_session_key}
use uav_omnet.Protocol.Safety.Station.{field}
use uav_omnet.Protocol.Pairing.Terms.{completed}

abbrev or_no_session : Option Phase3Session → Phase3Session
or_no_session none = no_peer_session
or_no_session (some session) = session

-- The session that a drone keeps for the sender of a message.
abbrev pub session_with : Uav → Message → Phase3Session
session_with uav m = or_no_session (lookup m.sender_id uav.peers)

module _ (env : Env) where
  open env use {core, suite, ossl}

  -- The string that the authenticator of P2 has to cover: what was received, with the ids, the nonce and the key of the
  -- drone's own request.
  abbrev pub expected_p2 : Uav → Message → Bytes
  expected_p2 uav p2 =
      let session = session_with uav p2 in
      mac_input core p2.suite_id MessageType.p3_p2_peer_response (
        of_list (
          (FieldId.sender_id, encode_id core session.local_id)
          ∷ (FieldId.receiver_id, encode_id core session.peer_id)
          ∷ (FieldId.nonce_1, session.nonce_local)
          ∷ (FieldId.nonce_2, field p2 FieldId.nonce_2)
          ∷ (FieldId.epk_a, session.epk_local)
          ∷ (FieldId.epk_b, field p2 FieldId.epk_b)
          ∷ []))

  -- The string that the authenticator of P3 has to cover.
  abbrev pub expected_p3 : Uav → Message → Bytes
  expected_p3 uav p3 =
      let session = session_with uav p3 in
      (mac_input core p3.suite_id MessageType.p3_p3_peer_complete empty_fields
        ++ session.p1_encoded)
      ++ session.p2_encoded

  -- P2 is accepted only for a session that the drone itself began with the sender, and only if its
  -- authenticator verifies under the key of that session over the drone's own request.
  pub handle_p2_authentic :
      (p2 : Message) (now_ms : ℕ) (uav uav' : Uav) (reply : Option Message)
      → handle_p2 env p2 now_ms uav ≡ done reply uav'
      → (lookup p2.sender_id uav.peers ≡ some (session_with uav p2))
        × ((session_with uav p2).initiator ≡ true)
        × (suite.mac_verify
              (session_with uav p2).auth_key
              (expected_p2 uav p2)
              (field p2 FieldId.mac_tag)
            ≡ true)
  unfolding handle_p2
  handle_p2_authentic p2 now_ms uav uav' reply h = (ground arith, ground arith, ground arith)

  -- P3 is accepted only for a session that the sender began, and only if its authenticator verifies
  -- under the key of that session over P1 and P2.
  pub handle_p3_authentic :
      (p3 : Message) (now_ms : ℕ) (uav uav' : Uav) (reply : Option Message)
      → handle_p3 env p3 now_ms uav ≡ done reply uav'
      → (lookup p3.sender_id uav.peers ≡ some (session_with uav p3))
        × ((session_with uav p3).initiator ≡ false)
        × (suite.mac_verify
              (session_with uav p3).auth_key
              (expected_p3 uav p3)
              (field p3 FieldId.mac_tag)
            ≡ true)
  unfolding handle_p3
  handle_p3_authentic p3 now_ms uav uav' reply h = (ground arith, ground arith, ground arith)

  -- The session once it is completed in the state of a drone.
  abbrev final : Uav → Phase3Session → Phase3Session
  final uav session =
      completed env session (or_empty (lookup session.peer_id uav.phase2.peer_credentials))
        (or_empty (x25519_derive ossl session.ephemeral.secret session.epk_remote))

  -- An accepted P2 leaves an established session with its sender, whose scalar is erased and whose key
  -- the drone gives out.
  pub peer_session_key-handle_p2 :
      (p2 : Message) (now_ms : ℕ) (uav uav' : Uav) (reply : Option Message)
      → handle_p2 env p2 now_ms uav ≡ done reply uav'
      → (session : Phase3Session) × (lookup p2.sender_id uav'.peers ≡ some session)
        × (session.ephemeral.secret ≡ [])
        × (session.ephemeral.erased ≡ true)
        × (peer_session_key p2.sender_id uav' ≡ some session.session_key)
  unfolding handle_p2 X25519.erase peer_session_key
  peer_session_key-handle_p2 p2 now_ms uav uav' reply h =
      let asked = session_with uav p2 in
      let answered = record asked {
        nonce_remote = field p2 FieldId.nonce_2;
        epk_remote = field p2 FieldId.epk_b;
      } in
      let encoded = record answered { p2_encoded = expected_p2 uav p2 } in
      let end = final uav encoded in
      let before = insert p2.sender_id encoded (insert p2.sender_id answered uav.peers) in
      let written : uav'.peers ≡ insert p2.sender_id end before = ground arith in
      let held : lookup p2.sender_id uav'.peers ≡ some end =
        rw written (lookup-insert_self p2.sender_id end before) in
      (end, held, refl, refl, rw (held, peer_session_key) refl)

  -- An accepted P3 leaves an established session with its sender, whose scalar is erased and whose key
  -- the drone gives out.
  pub peer_session_key-handle_p3 :
      (p3 : Message) (now_ms : ℕ) (uav uav' : Uav) (reply : Option Message)
      → handle_p3 env p3 now_ms uav ≡ done reply uav'
      → (session : Phase3Session) × (lookup p3.sender_id uav'.peers ≡ some session)
        × (session.ephemeral.secret ≡ [])
        × (session.ephemeral.erased ≡ true)
        × (peer_session_key p3.sender_id uav' ≡ some session.session_key)
  unfolding handle_p3 X25519.erase peer_session_key
  peer_session_key-handle_p3 p3 now_ms uav uav' reply h =
      let end = final uav (session_with uav p3) in
      let written : uav'.peers ≡ insert p3.sender_id end uav.peers = ground arith in
      let held : lookup p3.sender_id uav'.peers ≡ some end =
        rw written (lookup-insert_self p3.sender_id end uav.peers) in
      (end, held, refl, refl, rw (held, peer_session_key) refl)

  -- The ground station gives both drones of a pair the same credential.
  pub pair_credential_comm :
      (master : Bytes) (a b : ℤ) → pair_credential env master a b ≡ pair_credential env master b a
  unfolding pair_credential
  pair_credential_comm master a b = rw (min_ℤ_comm a b, max_ℤ_comm a b, pair_credential) refl

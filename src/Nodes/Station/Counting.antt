-- ===== src/Nodes/Station/Counting.antt =====
-- nodes/GroundStationNode.cc: what the counters of the node count, over any messages.
use uav_omnet.Base.{
  ℕ, ◌+◌, ◌≤◌, ◌≡◌, true, if◌then◌else◌, is_empty, Option, none, some, Option-cases, Bool-cases,
  inl, inr, List, [], ◌∷◌, Bytes, ℤ, StdMap, lookup, insert, lookup-insert_self, arith,
}
use uav_omnet.Base.Ascending.{
  IsAscending, total, insert-IsAscending, total-insert, total-insert_over,
}
use uav_omnet.Wire.{MessageType, Message, eq_type}
use uav_omnet.Crypto.X25519.{x25519_key_len, x25519_derive}
use uav_omnet.Crypto.X25519
use uav_omnet.Protocol.Flow.{Flow, done, stop, fault, Flow-cases}
use uav_omnet.Protocol.State.{Env, GroundStation, Phase2GsSession}
use uav_omnet.Protocol.GroundStation.{handle_m1, handle_m3}
use uav_omnet.Nodes.Carrier.{SimMessage, Effect}
use uav_omnet.Nodes.Station.{GroundStationNode, receive_m1, receive_m3, handle_message}

-- Whether a session still has its scalar, as a number.
unfoldable pub open_session : Phase2GsSession → ℕ
open_session session = if is_empty session.ephemeral.secret then 0 else 1

-- The number of sessions that an M3 can still complete.
abbrev pub open_sessions : GroundStation → ℕ
open_sessions gs = total open_session gs.sessions

module _ (env : Env) where
  -- A step of the ground station that keeps the order of the sessions, with at most so many open
  -- sessions more, and with `cost` fewer if it replies.
  abbrev Within : ℕ → ℕ → GroundStation → Flow (Option Message) GroundStation → Type 0
  Within more cost gs (done reply gs') =
      IsAscending gs'.sessions × (open_sessions gs' + cost ≤ open_sessions gs + more)
  Within more cost gs (stop r gs') =
      IsAscending gs'.sessions × (open_sessions gs' ≤ open_sessions gs)
  Within more cost gs fault = Unit

  handle_m1-Within :
      (m1 : Message) (now_ms : ℕ) (gs : GroundStation)
      → IsAscending gs.sessions
      → Within 1 0 gs (handle_m1 env m1 now_ms gs)
  unfolding handle_m1 open_session
  handle_m1-Within m1 now_ms gs asc =
      grind
        (arith, asc, insert-IsAscending {V = Phase2GsSession}, total-insert {V = Phase2GsSession})

  -- A derivation takes a scalar.
  derive-open :
      (session : Phase2GsSession) (peer shared : Bytes)
      → x25519_derive env.ossl session.ephemeral.secret peer ≡ some shared
      → open_session session ≡ 1
  unfolding x25519_derive open_session
  derive-open session peer shared h = elim (Bool-cases (is_empty session.ephemeral.secret)) [
    | inl e ↦ absurd (ground (arith, e, h))
    | inr e ↦ ground (arith, e)
  ]

  -- The two writes of an M3 to its session.
  module _ (id : ℤ) (old : Phase2GsSession) (sessions : StdMap Phase2GsSession)
      (asc : IsAscending sessions) (found : lookup id sessions ≡ some old) where
    abbrev verified : StdMap Phase2GsSession
    verified = insert id (record old { m3_verified = true }) sessions

    verified-IsAscending : IsAscending verified
    verified-IsAscending = insert-IsAscending id _ sessions asc

    verified-total : total open_session verified ≡ total open_session sessions
    unfolding open_session
    verified-total = omega (
      arith,
      total-insert_over open_session id (record old { m3_verified = true }) old sessions asc found,
    )

    -- Closing the session afterwards.
    closed-total :
        (end : Phase2GsSession)
        → total open_session (insert id end verified) + open_session old
          ≡ open_session end + total open_session sessions
    unfolding open_session
    closed-total end =
        let first = record old { m3_verified = true } in
        omega (
          arith,
          total-insert_over open_session id end first verified verified-IsAscending
              (lookup-insert_self id first sessions),
          verified-total,
        )

  handle_m3-Within :
      (m3 : Message) (now_ms : ℕ) (gs : GroundStation)
      → IsAscending gs.sessions
      → Within 0 1 gs (handle_m3 env m3 now_ms gs)
  unfolding handle_m3 open_session X25519.erase
  handle_m3-Within m3 now_ms gs asc = grind (
    arith,
    asc,
    insert-IsAscending {V = Phase2GsSession},
    verified-total,
    closed-total,
    derive-open,
  )

-- The node after a sequence of messages with their times; `none` is an exception.
unfoldable pub handle_all :
    Env → List (SimMessage × ℕ) → GroundStationNode → Option GroundStationNode
handle_all env [] node = some node
handle_all env ((msg, now_ms) ∷ rest) node = elim (handle_message env msg now_ms node) [
  | none ↦ none
  | some (next, sent) ↦ handle_all env rest next
]

-- How many of them are requests.
unfoldable pub requests : List (SimMessage × ℕ) → ℕ
requests [] = 0
requests ((msg, now_ms) ∷ rest) =
    (if eq_type msg.payload.type MessageType.p2_m1_auth_request then 1 else 0) + requests rest

module _ (env : Env) where
  -- Every success, and every session that can still lead to one, has an attempt of its own.
  abbrev IsCounted : GroundStationNode → Type 0
  IsCounted node =
      IsAscending node.proto.sessions
      × (node.auth_successes + open_sessions node.proto ≤ node.auth_attempts)

  -- What an event leaves, when it counts so many attempts.
  abbrev Counts : GroundStationNode → ℕ → Option (GroundStationNode × List Effect) → Type 0
  Counts node attempts none = Unit
  Counts node attempts (some (node', sent)) =
      IsCounted node' × (node'.auth_attempts ≡ node.auth_attempts + attempts)

  receive_m1-Counts :
      (m1 : Message) (now_ms : ℕ) (node : GroundStationNode)
      → IsCounted node
      → Counts node 1 (receive_m1 env m1 now_ms node)
  unfolding receive_m1
  receive_m1-Counts m1 now_ms node (asc, counted) =
      let within = handle_m1-Within env m1 now_ms node.proto asc in
      elim (Flow-cases (handle_m1 env m1 now_ms node.proto)) [
        | inl (reply, gs, e) ↦ ground (arith, e, within, counted)
        | inr (inl (r, gs, e)) ↦ ground (arith, e, within, counted)
        | inr (inr e) ↦ ground (arith, e)
      ]

  receive_m3-Counts :
      (m3 : Message) (now_ms : ℕ) (node : GroundStationNode)
      → IsCounted node
      → Counts node 0 (receive_m3 env m3 now_ms node)
  unfolding receive_m3
  receive_m3-Counts m3 now_ms node (asc, counted) =
      let within = handle_m3-Within env m3 now_ms node.proto asc in
      elim (Flow-cases (handle_m3 env m3 now_ms node.proto)) [
        | inl (reply, gs, e) ↦ ground (arith, e, within, counted)
        | inr (inl (r, gs, e)) ↦ ground (arith, e, within, counted)
        | inr (inr e) ↦ ground (arith, e)
      ]

  handle_message-Counts :
      (msg : SimMessage) (now_ms : ℕ) (node : GroundStationNode)
      → IsCounted node
      → Counts node
          (if eq_type msg.payload.type MessageType.p2_m1_auth_request then 1 else 0)
          (handle_message env msg now_ms node)
  unfolding handle_message
  handle_message-Counts msg now_ms node counted = ground (
    arith,
    counted,
    receive_m1-Counts msg.payload now_ms node counted,
    receive_m3-Counts msg.payload now_ms node counted,
  )

  handle_all-IsCounted :
      (events : List (SimMessage × ℕ)) (node last : GroundStationNode)
      → IsCounted node
      → handle_all env events node ≡ some last
      → IsCounted last × (last.auth_attempts ≡ node.auth_attempts + requests events)
  unfolding handle_all requests
  handle_all-IsCounted [] node last counted e = ground (arith, counted)
  handle_all-IsCounted ((msg, now_ms) ∷ rest) node last counted e =
      let step = handle_message-Counts msg now_ms node counted in
      elim (Option-cases (handle_message env msg now_ms node)) [
        | inl f ↦ absurd (ground (arith, f, e))
        | inr ((next, sent), f) ↦
            (let (kept, attempts) : IsCounted next
                  × (next.auth_attempts
                      ≡ node.auth_attempts
                        + (if eq_type msg.payload.type MessageType.p2_m1_auth_request
                            then 1
                            else 0)) =
                ground (arith, f, step) in
              let (end, more) = handle_all-IsCounted rest next last kept (ground (arith, f, e)) in
              (end, omega (arith, attempts, more)))
      ]

  -- Whatever messages the node of a ground station without sessions and successes handles: no more
  -- successes than attempts are counted, and each request is one attempt, whether it is accepted, refused
  -- or sent again.
  pub auth_successes-bounded :
      (events : List (SimMessage × ℕ)) (node last : GroundStationNode)
      → node.proto.sessions ≡ []
      → node.auth_successes ≡ 0
      → handle_all env events node ≡ some last
      → (last.auth_successes ≤ last.auth_attempts)
        × (last.auth_attempts ≡ node.auth_attempts + requests events)
  unfolding total
  auth_successes-bounded events node last fresh none_yet e =
      let start : IsCounted node = ground (arith, fresh, none_yet) in
      let ((asc, counted), attempts) = handle_all-IsCounted events node last start e in
      (omega (arith, counted), attempts)

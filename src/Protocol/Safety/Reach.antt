-- ===== src/Protocol/Safety/Reach.antt =====
-- Protocol.cc, class `UavProtocol` under any sequence of calls: a drone is provisioned, starts
-- Phase 2 and Phase 3 and is handed messages, in any order and from anyone.
use mathlib.Core.Path.{subst}
use uav_omnet.Base.{ℕ, ◌≡◌, Bool, Option, none, Bytes, ℤ, arith}
use uav_omnet.Core.{FieldId}
use uav_omnet.Wire.{Message, AbortReason}
use uav_omnet.Crypto.X25519
use uav_omnet.Protocol.Flow.{Handler, done, stop, AfterAll, AfterAll-intro}
use uav_omnet.Protocol.Replay.Window.{IsCache, offer-IsCache}
use uav_omnet.Protocol.State.{Env, PufModel, DeviceState, Uav}
use uav_omnet.Protocol.Uav.{provision, start_phase2, handle_m2, handle_m4}
use uav_omnet.Protocol.Peer.{inject_peer_credential, start_phase3, handle_p1, handle_p2, handle_p3}
use uav_omnet.Protocol.Safety.Station.{field}
use uav_omnet.Protocol.Safety.Drone.{IsForwardSecret}

-- A call of a drone's protocol object, with the time and what comes with it.
pub data Call : Type 0 where
  start2 : PufModel → ℕ → Call
  m2_in : Message → ℕ → Call
  m4_in : Message → ℕ → Call
  start3 : ℤ → ℕ → Call
  p1_in : Message → ℕ → Call
  p2_in : Message → ℕ → Call
  p3_in : Message → ℕ → Call
  inject : ℤ → Bytes → Bytes → Call
  provision_with : DeviceState → Call
  set_legacy : Bool → Call

module _ (env : Env) where
  unfoldable pub serve : Call → Handler Uav (Option Message)
  serve (start2 puf now_ms) uav = start_phase2 env puf now_ms uav
  serve (m2_in m now_ms) uav = handle_m2 env m now_ms uav
  serve (m4_in m now_ms) uav = handle_m4 env m now_ms uav
  serve (start3 peer now_ms) uav = start_phase3 env peer now_ms uav
  serve (p1_in m now_ms) uav = handle_p1 env m now_ms uav
  serve (p2_in m now_ms) uav = handle_p2 env m now_ms uav
  serve (p3_in m now_ms) uav = handle_p3 env m now_ms uav
  serve (inject id cred tid) uav = done none (inject_peer_credential id cred tid uav)
  serve (provision_with state) uav = done none (provision state uav)
  serve (set_legacy enabled) uav = done none (record uav { legacy_no_gs_auth = enabled })

  -- The states that calls lead to, whether they answer or reject.
  pub data Reaches (start : Uav) : Uav → Type 0 where
    at_start : Reaches start start
    answered :
        {s t : Uav} {reply : Option Message} (call : Call)
        → Reaches start s
        → serve call s ≡ done reply t
        → Reaches start t
    rejected :
        {s t : Uav} {r : AbortReason} (call : Call)
        → Reaches start s
        → serve call s ≡ stop r t
        → Reaches start t

pub record IsSafe (uav : Uav) : Type 0 where
  pub forward_secret : IsForwardSecret uav.phase2
  pub cache : IsCache uav.replay

module _ (env : Env) where
  start_phase2-IsSafe :
      (puf : PufModel) (now_ms : ℕ) (uav : Uav)
      → IsSafe uav
      → AfterAll IsSafe (start_phase2 env puf now_ms uav)
  unfolding start_phase2
  start_phase2-IsSafe puf now_ms uav v =
      AfterAll-intro IsSafe (start_phase2 env puf now_ms uav)
        (λ a s e. ground (arith, v.forward_secret, v.cache))
        (λ r s e. ground (arith, v.forward_secret, v.cache))

  handle_m2-IsSafe :
      (m : Message) (now_ms : ℕ) (uav : Uav)
      → IsSafe uav
      → AfterAll IsSafe (handle_m2 env m now_ms uav)
  unfolding handle_m2 X25519.erase
  handle_m2-IsSafe m now_ms uav v =
      let kept = offer-IsCache uav.replay (field m FieldId.nonce_2) v.cache in
      AfterAll-intro IsSafe (handle_m2 env m now_ms uav)
        (λ a s e. ground (arith, v.forward_secret, v.cache, kept))
        (λ r s e. ground (arith, v.forward_secret, v.cache, kept))

  handle_m4-IsSafe :
      (m : Message) (now_ms : ℕ) (uav : Uav)
      → IsSafe uav
      → AfterAll IsSafe (handle_m4 env m now_ms uav)
  unfolding handle_m4
  handle_m4-IsSafe m now_ms uav v =
      AfterAll-intro IsSafe (handle_m4 env m now_ms uav)
        (λ a s e. ground (arith, v.forward_secret, v.cache))
        (λ r s e. ground (arith, v.forward_secret, v.cache))

  start_phase3-IsSafe :
      (peer : ℤ) (now_ms : ℕ) (uav : Uav)
      → IsSafe uav
      → AfterAll IsSafe (start_phase3 env peer now_ms uav)
  unfolding start_phase3
  start_phase3-IsSafe peer now_ms uav v =
      AfterAll-intro IsSafe (start_phase3 env peer now_ms uav)
        (λ a s e. ground (arith, v.forward_secret, v.cache))
        (λ r s e. ground (arith, v.forward_secret, v.cache))

  handle_p1-IsSafe :
      (m : Message) (now_ms : ℕ) (uav : Uav)
      → IsSafe uav
      → AfterAll IsSafe (handle_p1 env m now_ms uav)
  unfolding handle_p1
  handle_p1-IsSafe m now_ms uav v =
      let kept = offer-IsCache uav.replay (field m FieldId.nonce_1) v.cache in
      AfterAll-intro IsSafe (handle_p1 env m now_ms uav)
        (λ a s e. ground (arith, v.forward_secret, v.cache, kept))
        (λ r s e. ground (arith, v.forward_secret, v.cache, kept))

  handle_p2-IsSafe :
      (m : Message) (now_ms : ℕ) (uav : Uav)
      → IsSafe uav
      → AfterAll IsSafe (handle_p2 env m now_ms uav)
  unfolding handle_p2 X25519.erase
  handle_p2-IsSafe m now_ms uav v =
      AfterAll-intro IsSafe (handle_p2 env m now_ms uav)
        (λ a s e. ground (arith, v.forward_secret, v.cache))
        (λ r s e. ground (arith, v.forward_secret, v.cache))

  handle_p3-IsSafe :
      (m : Message) (now_ms : ℕ) (uav : Uav)
      → IsSafe uav
      → AfterAll IsSafe (handle_p3 env m now_ms uav)
  unfolding handle_p3 X25519.erase
  handle_p3-IsSafe m now_ms uav v =
      AfterAll-intro IsSafe (handle_p3 env m now_ms uav)
        (λ a s e. ground (arith, v.forward_secret, v.cache))
        (λ r s e. ground (arith, v.forward_secret, v.cache))

  serve-IsSafe : (call : Call) (uav : Uav) → IsSafe uav → AfterAll IsSafe (serve env call uav)
  unfolding serve inject_peer_credential provision
  serve-IsSafe (start2 puf now_ms) uav v = start_phase2-IsSafe puf now_ms uav v
  serve-IsSafe (m2_in m now_ms) uav v = handle_m2-IsSafe m now_ms uav v
  serve-IsSafe (m4_in m now_ms) uav v = handle_m4-IsSafe m now_ms uav v
  serve-IsSafe (start3 peer now_ms) uav v = start_phase3-IsSafe peer now_ms uav v
  serve-IsSafe (p1_in m now_ms) uav v = handle_p1-IsSafe m now_ms uav v
  serve-IsSafe (p2_in m now_ms) uav v = handle_p2-IsSafe m now_ms uav v
  serve-IsSafe (p3_in m now_ms) uav v = handle_p3-IsSafe m now_ms uav v
  serve-IsSafe (inject id cred tid) uav v = record {
    forward_secret = v.forward_secret;
    cache = v.cache;
  }
  serve-IsSafe (provision_with state) uav v = record {
    forward_secret = v.forward_secret;
    cache = v.cache;
  }
  serve-IsSafe (set_legacy enabled) uav v = record {
    forward_secret = v.forward_secret;
    cache = v.cache;
  }

  -- After any calls, provisioning and the legacy switch among them, in any order and with any messages, a
  -- drone that was safe at the start holds no Phase 2 session key together with the scalar behind it, and
  -- its replay cache is within its bound and consistent.
  pub Reaches-IsSafe : (start uav : Uav) → IsSafe start → Reaches env start uav → IsSafe uav
  Reaches-IsSafe start uav v at_start = v
  Reaches-IsSafe start uav v (answered {s = s} call before e) =
      subst (AfterAll IsSafe) e (serve-IsSafe call s (Reaches-IsSafe start s v before))
  Reaches-IsSafe start uav v (rejected {s = s} call before e) =
      subst (AfterAll IsSafe) e (serve-IsSafe call s (Reaches-IsSafe start s v before))

-- ===== src/Protocol/Safety/Resent.antt =====
-- Protocol.cc, `handleM1` on a message that was accepted before.
use uav_omnet.Base.{ℕ, ◌<◌, ◌≡◌, ◌≢◌, true, false, Option, List, Bytes, length, ap, sym, ◌∙◌, arith}
use uav_omnet.Core.{FieldId}
use uav_omnet.Wire.{Message}
use uav_omnet.Protocol.Flow.{done}
use uav_omnet.Protocol.Replay.{ReplayCache, contains, offer}
use uav_omnet.Protocol.Replay.Window.{IsCache, offers, offer_replayed}
use uav_omnet.Protocol.State.{Env, GroundStation}
use uav_omnet.Protocol.GroundStation.{handle_m1}
use uav_omnet.Protocol.Safety.Station.{field, handle_m1_authentic}

offer-new :
    (c : ReplayCache) (nonce : Bytes) → (offer c nonce).1 ≡ true → contains nonce c.seen ≡ false
unfolding offer
offer-new c nonce h = ground arith

module _ (env : Env) where
  replay-handle_m1 :
      (m1 : Message) (now_ms : ℕ) (gs gs' : GroundStation) (reply : Option Message)
      → handle_m1 env m1 now_ms gs ≡ done reply gs'
      → gs'.replay ≡ (offer gs.replay (field m1 FieldId.nonce_1)).0
  unfolding handle_m1
  replay-handle_m1 m1 now_ms gs gs' reply h = ground arith

  -- An M1 that was accepted, with a consistent replay cache, is not accepted again, at any time and in
  -- any state of the ground station whose cache has seen fewer further nonces than its capacity.
  pub handle_m1_resent :
      (m1 : Message) (now_ms : ℕ) (gs gs' : GroundStation) (reply : Option Message)
      (ns : List Bytes) (later later' : GroundStation) (again_ms : ℕ) (again : Option Message)
      → IsCache gs.replay
      → length ns < gs.replay.capacity
      → handle_m1 env m1 now_ms gs ≡ done reply gs'
      → later.replay ≡ offers gs'.replay ns
      → handle_m1 env m1 again_ms later ≢ done again later'
  handle_m1_resent m1 now_ms gs gs' reply ns later later' again_ms again v few first cache second =
      let nonce = field m1 FieldId.nonce_1 in
      let new =
        offer-new gs.replay nonce (handle_m1_authentic env m1 now_ms gs gs' reply first).new in
      let kept = replay-handle_m1 m1 now_ms gs gs' reply first in
      let same : later.replay ≡ offers (offer gs.replay nonce).0 ns =
        cache ∙ ap (λ c. offers c ns) kept in
      let refused = ap (λ p. p.1) (offer_replayed gs.replay nonce ns v new few) in
      let accepted = (handle_m1_authentic env m1 again_ms later later' again second).new in
      let both : true ≡ false = sym accepted ∙ ap (λ c. (offer c nonce).1) same ∙ refused in
      absurd (ground arith)

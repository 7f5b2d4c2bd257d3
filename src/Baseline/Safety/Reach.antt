-- ===== src/Baseline/Safety/Reach.antt =====
-- BaselineSigAuth.cc: a drone and a ground station under any sequence of calls, with messages that may
-- come from anyone.
use mathlib.Core.Path.{subst}
use uav_omnet.Base.{
  ℕ, ◌≡◌, ◌⊎◌, inl, inr, true, Option, some, [], Bytes, is_empty, ℤ, lookup, lookup-insert, arith,
}
use uav_omnet.Core.{FieldId}
use uav_omnet.Wire.{Message, AbortReason}
use uav_omnet.Crypto.X25519.{X25519KeyPair}
use uav_omnet.Crypto.X25519
use uav_omnet.Protocol.Flow.{done, stop, AfterAll, AfterAll-intro}
use uav_omnet.Protocol.Replay.Window.{IsCache, offer-IsCache}
use uav_omnet.Protocol.Safety.Station.{field}
use uav_omnet.Baseline.State.{BaselineEnv, BaselineGsSession, BaselineGroundStation, BaselineUav}
use uav_omnet.Baseline.GroundStation.{enroll_uav, handle_m1, handle_m3}
use uav_omnet.Baseline.GroundStation.{ensure_own_keypair as station_keypair}
use uav_omnet.Baseline.Uav.{ensure_own_keypair as drone_keypair}
use uav_omnet.Baseline.Uav.{provision_gs_public_key, start_phase2, handle_m2, handle_m4}

-- A session key and the scalar that it came from are never held together.
abbrev pub IsEphemeral : Bytes → X25519KeyPair → Type 0
IsEphemeral session_key ephemeral = (is_empty session_key ≡ true) ⊎ (ephemeral.secret ≡ [])

pub record IsSafeStation {Key : Type 0} (gs : BaselineGroundStation Key) : Type 0 where
  pub ephemeral :
      (id : ℤ) (session : BaselineGsSession)
      → lookup id gs.sessions ≡ some session
      → IsEphemeral session.session_key session.ephemeral
  pub cache : IsCache gs.replay

pub record IsSafeDrone {Key : Type 0} (uav : BaselineUav Key) : Type 0 where
  pub ephemeral : IsEphemeral uav.session.session_key uav.session.ephemeral
  pub cache : IsCache uav.replay

-- Both sides.
pub record Parties (Key : Type 0) : Type 0 where
  pub station : BaselineGroundStation Key
  pub drone : BaselineUav Key

pub record IsSafeParties {Key : Type 0} (p : Parties Key) : Type 0 where
  pub station : IsSafeStation p.station
  pub drone : IsSafeDrone p.drone

module _ {Key : Type 0} (env : BaselineEnv Key) where
  -- One call of one side; a call that ends in an exception ends the run.
  pub data Step : Parties Key → Parties Key → Type 0 where
    enrolls :
        {p : Parties Key} (id : ℤ) (spki : Bytes)
        → Step p (record p { station = enroll_uav env id spki p.station })
    provisions :
        {p : Parties Key} (spki : Bytes)
        → Step p (record p { drone = provision_gs_public_key env spki p.drone })
    station_makes_keys :
        {p : Parties Key} (generated : Option Key)
        → Step p (record p { station = station_keypair generated p.station })
    drone_makes_keys :
        {p : Parties Key} (generated : Option Key)
        → Step p (record p { drone = drone_keypair generated p.drone })
    starts :
        {p : Parties Key} {u : BaselineUav Key} {reply : Option Message} (now_ms : ℕ)
        → start_phase2 env now_ms p.drone ≡ done reply u
        → Step p (record p { drone = u })
    starts_refused :
        {p : Parties Key} {u : BaselineUav Key} {r : AbortReason} (now_ms : ℕ)
        → start_phase2 env now_ms p.drone ≡ stop r u
        → Step p (record p { drone = u })
    station_accepts :
        {p : Parties Key} {g : BaselineGroundStation Key} {reply : Option Message} (m : Message)
        (now_ms : ℕ)
        → (handle_m1 env m now_ms p.station ≡ done reply g)
          ⊎ (handle_m3 env m now_ms p.station ≡ done reply g)
        → Step p (record p { station = g })
    station_refuses :
        {p : Parties Key} {g : BaselineGroundStation Key} {r : AbortReason} (m : Message)
        (now_ms : ℕ)
        → (handle_m1 env m now_ms p.station ≡ stop r g)
          ⊎ (handle_m3 env m now_ms p.station ≡ stop r g)
        → Step p (record p { station = g })
    drone_accepts :
        {p : Parties Key} {u : BaselineUav Key} {reply : Option Message} (m : Message) (now_ms : ℕ)
        → (handle_m2 env m now_ms p.drone ≡ done reply u)
          ⊎ (handle_m4 env m now_ms p.drone ≡ done reply u)
        → Step p (record p { drone = u })
    drone_refuses :
        {p : Parties Key} {u : BaselineUav Key} {r : AbortReason} (m : Message) (now_ms : ℕ)
        → (handle_m2 env m now_ms p.drone ≡ stop r u) ⊎ (handle_m4 env m now_ms p.drone ≡ stop r u)
        → Step p (record p { drone = u })

  pub data Leads (start : Parties Key) : Parties Key → Type 0 where
    at_start : Leads start start
    then_step : {p q : Parties Key} → Leads start p → Step p q → Leads start q

  handle_m1-IsSafeStation :
      (m : Message) (now_ms : ℕ) (gs : BaselineGroundStation Key)
      → IsSafeStation gs
      → AfterAll IsSafeStation (handle_m1 env m now_ms gs)
  unfolding handle_m1
  handle_m1-IsSafeStation m now_ms gs v =
      let kept = offer-IsCache gs.replay (field m FieldId.nonce_1) v.cache in
      AfterAll-intro IsSafeStation (handle_m1 env m now_ms gs)
        (λ a s e. record {
          ephemeral = λ j found h. grind (arith, lookup-insert, v.ephemeral j found);
          cache = ground (arith, v.cache, kept);
        })
        (λ r s e. record {
          ephemeral = λ j found h. ground (arith, v.ephemeral j found);
          cache = ground (arith, v.cache, kept);
        })

  start_phase2-IsSafeDrone :
      (now_ms : ℕ) (uav : BaselineUav Key)
      → IsSafeDrone uav
      → AfterAll IsSafeDrone (start_phase2 env now_ms uav)
  unfolding start_phase2
  start_phase2-IsSafeDrone now_ms uav v =
      AfterAll-intro IsSafeDrone (start_phase2 env now_ms uav)
        (λ a s e. ground (arith, v.ephemeral, v.cache))
        (λ r s e. ground (arith, v.ephemeral, v.cache))

  handle_m2-IsSafeDrone :
      (m : Message) (now_ms : ℕ) (uav : BaselineUav Key)
      → IsSafeDrone uav
      → AfterAll IsSafeDrone (handle_m2 env m now_ms uav)
  unfolding handle_m2 X25519.erase
  handle_m2-IsSafeDrone m now_ms uav v =
      let kept = offer-IsCache uav.replay (field m FieldId.nonce_2) v.cache in
      AfterAll-intro IsSafeDrone (handle_m2 env m now_ms uav)
        (λ a s e. ground (arith, v.ephemeral, v.cache, kept))
        (λ r s e. ground (arith, v.ephemeral, v.cache, kept))

  handle_m4-IsSafeDrone :
      (m : Message) (now_ms : ℕ) (uav : BaselineUav Key)
      → IsSafeDrone uav
      → AfterAll IsSafeDrone (handle_m4 env m now_ms uav)
  unfolding handle_m4
  handle_m4-IsSafeDrone m now_ms uav v =
      AfterAll-intro IsSafeDrone (handle_m4 env m now_ms uav)
        (λ a s e. ground (arith, v.ephemeral, v.cache))
        (λ r s e. ground (arith, v.ephemeral, v.cache))

  handle_m3-IsSafeStation :
      (m : Message) (now_ms : ℕ) (gs : BaselineGroundStation Key)
      → IsSafeStation gs
      → AfterAll IsSafeStation (handle_m3 env m now_ms gs)
  unfolding handle_m3 X25519.erase
  handle_m3-IsSafeStation m now_ms gs v =
      AfterAll-intro IsSafeStation (handle_m3 env m now_ms gs)
        (λ a s e. record {
          ephemeral = λ j found h. grind (arith, lookup-insert, v.ephemeral j found);
          cache = ground (arith, v.cache);
        })
        (λ r s e. record {
          ephemeral = λ j found h. grind (arith, lookup-insert, v.ephemeral j found);
          cache = ground (arith, v.cache);
        })

  with_station :
      {p : Parties Key} {g : BaselineGroundStation Key}
      → IsSafeParties p
      → IsSafeStation g
      → IsSafeParties (record p { station = g })
  with_station v safe = record { station = safe; drone = v.drone }

  with_drone :
      {p : Parties Key} {u : BaselineUav Key}
      → IsSafeParties p
      → IsSafeDrone u
      → IsSafeParties (record p { drone = u })
  with_drone v safe = record { station = v.station; drone = safe }

  Step-IsSafeParties : (p q : Parties Key) → IsSafeParties p → Step p q → IsSafeParties q
  unfolding enroll_uav provision_gs_public_key station_keypair drone_keypair
  Step-IsSafeParties p q v (enrolls id spki) = record {
    station = record { ephemeral = v.station.ephemeral; cache = v.station.cache };
    drone = v.drone;
  }
  Step-IsSafeParties p q v (provisions spki) = record {
    station = v.station;
    drone = record { ephemeral = v.drone.ephemeral; cache = v.drone.cache };
  }
  Step-IsSafeParties p q v (station_makes_keys generated) = with_station v (record {
    ephemeral = λ id session found. v.station.ephemeral id session (ground (arith, found));
    cache = ground (arith, v.station.cache);
  })
  Step-IsSafeParties p q v (drone_makes_keys generated) = with_drone v (record {
    ephemeral = ground (arith, v.drone.ephemeral);
    cache = ground (arith, v.drone.cache);
  })
  Step-IsSafeParties p q v (starts_refused now_ms e) =
      with_drone v
        (subst (AfterAll IsSafeDrone) e (start_phase2-IsSafeDrone now_ms p.drone v.drone))
  Step-IsSafeParties p q v (starts now_ms e) =
      with_drone v
        (subst (AfterAll IsSafeDrone) e (start_phase2-IsSafeDrone now_ms p.drone v.drone))
  Step-IsSafeParties p q v (station_accepts m now_ms (inl e)) =
      with_station v
        (subst (AfterAll IsSafeStation) e (handle_m1-IsSafeStation m now_ms p.station v.station))
  Step-IsSafeParties p q v (station_accepts m now_ms (inr e)) =
      with_station v
        (subst (AfterAll IsSafeStation) e (handle_m3-IsSafeStation m now_ms p.station v.station))
  Step-IsSafeParties p q v (station_refuses m now_ms (inl e)) =
      with_station v
        (subst (AfterAll IsSafeStation) e (handle_m1-IsSafeStation m now_ms p.station v.station))
  Step-IsSafeParties p q v (station_refuses m now_ms (inr e)) =
      with_station v
        (subst (AfterAll IsSafeStation) e (handle_m3-IsSafeStation m now_ms p.station v.station))
  Step-IsSafeParties p q v (drone_accepts m now_ms (inl e)) =
      with_drone v (subst (AfterAll IsSafeDrone) e (handle_m2-IsSafeDrone m now_ms p.drone v.drone))
  Step-IsSafeParties p q v (drone_accepts m now_ms (inr e)) =
      with_drone v (subst (AfterAll IsSafeDrone) e (handle_m4-IsSafeDrone m now_ms p.drone v.drone))
  Step-IsSafeParties p q v (drone_refuses m now_ms (inl e)) =
      with_drone v (subst (AfterAll IsSafeDrone) e (handle_m2-IsSafeDrone m now_ms p.drone v.drone))
  Step-IsSafeParties p q v (drone_refuses m now_ms (inr e)) =
      with_drone v (subst (AfterAll IsSafeDrone) e (handle_m4-IsSafeDrone m now_ms p.drone v.drone))

  -- After any calls of either side, in any order and with any messages, no session of a ground station
  -- and of a drone that were safe at the start holds a session key together with the scalar behind it,
  -- and their replay caches are consistent.
  pub Leads-IsSafeParties :
      (start p : Parties Key) → IsSafeParties start → Leads start p → IsSafeParties p
  Leads-IsSafeParties start p v at_start = v
  Leads-IsSafeParties start p v (then_step {p = q} before step) =
      Step-IsSafeParties q p (Leads-IsSafeParties start q v before) step

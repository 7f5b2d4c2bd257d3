-- ===== src/Tests/Messages.antt =====
-- What the handlers accept and refuse in the run of `Exchange`.
use uav_omnet.Base.{
  lookup, ◌≢◌, ◌∷◌, [], ◌≡◌, inl, refl, false, Option, none, some, Bytes, is_empty, true, arith,
}
use uav_omnet.Core.{FieldId}
use uav_omnet.Wire.{Message, AbortReason}
use uav_omnet.Protocol.Flow.{done, stop}
use uav_omnet.Protocol.Replay.Window.{offers}
use uav_omnet.Protocol.GroundStation.{handle_m1}
use uav_omnet.Protocol.Safety.Resent.{handle_m1_resent}
use uav_omnet.Protocol.Credentials.{Package, unpack_credentials}
use uav_omnet.Protocol.State.{Uav}
use uav_omnet.Protocol.Uav.{handle_m2}
use uav_omnet.Crypto.X25519.{x25519_derive}
use uav_omnet.Protocol.State.{Phase2GsSession}
use uav_omnet.Protocol.Handshake.Terms.{session_key_of}
use uav_omnet.Protocol.Safety.Keyed.{sessions-handle_m3}
use uav_omnet.Protocol.Safety.Station.{
  device_of, session_of, IsAuthenticM1, IsAuthenticM3, handle_m1_authentic, handle_m3_authentic,
}
use uav_omnet.Protocol.Safety.Drone.{opened_by, handle_m2_no_oracle, handle_m4_authentic}
use uav_omnet.Protocol.Safety.Reach.{
  start2, m2_in, m4_in, at_start, answered, IsSafe, Reaches-IsSafe, serve,
}
use uav_omnet.Protocol.Replay.{contains}
use uav_omnet.Tests.World.{env, puf, station, drone}
use uav_omnet.Tests.Exchange.{
  m1, m2, m3, m4, forged, drone_1, drone_2, drone_3, station_1, station_2, runs,
}

handle_m1_authentic_example : IsAuthenticM1 env station m1 150
handle_m1_authentic_example =
    handle_m1_authentic env m1 150 station station_1 (some m2) runs.accepts_m1

handle_m3_authentic_example : IsAuthenticM3 env station_1 m3
handle_m3_authentic_example =
    handle_m3_authentic env m3 250 station_1 station_2 (some m4) runs.accepts_m3

handle_m2_no_oracle_example :
    (r : AbortReason) × (uav' : Uav) × (handle_m2 env (forged FieldId.mac_tag m2) 200 drone_1
      ≡ stop r uav')
    × (uav' ≡ record drone_1 { replay = uav'.replay })
handle_m2_no_oracle_example =
    handle_m2_no_oracle env (forged FieldId.mac_tag m2) 200 drone_1 runs.strict runs.forged_m2

handle_m4_authentic_example :
    (plaintext : Bytes) × (pkg : Package) × (is_empty drone_2.phase2.session_key ≡ false)
    × (opened_by env drone_2 m4 ≡ some plaintext)
    × (unpack_credentials env.core plaintext ≡ some pkg)
    × (drone_3.phase2.peer_credentials ≡ pkg.creds)
    × (drone_3.phase2.established ≡ true)
    × (◌≡◌ {A = Option Message} none none)
handle_m4_authentic_example = handle_m4_authentic env m4 300 drone_2 drone_3 none runs.accepts_m4

-- A drone that runs Phase 2 to its end is safe.
fresh-IsSafe : IsSafe drone
unfolding contains
fresh-IsSafe = record {
  forward_secret = inl refl;
  cache = record { distinct_seen = tt; distinct = tt; same = λ b. refl; bounded = omega arith };
}

Reaches-IsSafe_example : IsSafe drone_3
unfolding serve
Reaches-IsSafe_example = Reaches-IsSafe env drone drone_3 fresh-IsSafe (
    answered (m4_in m4 300)
      (answered (m2_in m2 200) (answered (start2 puf 100) at_start runs.starts) runs.accepts_m2)
      runs.accepts_m4)

handle_m1_resent_example :
    handle_m1 env m1 900 (record station_1 { replay = offers station_1.replay ((1 ∷ []) ∷ []) })
    ≢ done (some m2) station_1
handle_m1_resent_example =
    handle_m1_resent env m1 150 station station_1 (some m2) ((1 ∷ []) ∷ [])
      (record station_1 { replay = offers station_1.replay ((1 ∷ []) ∷ []) }) station_1 900
      (some m2) fresh-IsSafe.cache (omega arith) runs.accepts_m1 refl

sessions-handle_m3_example :
    (shared : Bytes) × (session : Phase2GsSession) × (x25519_derive env.ossl
        (session_of station_1 m3).ephemeral.secret
        (session_of station_1 m3).epk_a
      ≡ some shared)
    × (lookup (device_of station_1 m3).uav_id station_2.sessions ≡ some session)
    × (session.ephemeral.secret ≡ [])
    × (session.ephemeral.erased ≡ true)
    × (session.m3_verified ≡ true)
    × (session.session_key
        ≡ session_key_of env
            (device_of station_1 m3).mk
            shared
            (session_of station_1 m3).transcript)
sessions-handle_m3_example =
    sessions-handle_m3 env m3 250 station_1 station_2 (some m4) runs.accepts_m3

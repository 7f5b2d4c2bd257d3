-- ===== src/Tests/Handshake.antt =====
-- Phase 2 between the drone and the ground station of `World`.
use uav_omnet.Base.{refl, arith, take, drop, bytes_eq, replicate}
use uav_omnet.Crypto.Drbg.{Drbg}
use uav_omnet.Crypto.Drbg
use uav_omnet.Protocol.Replay.{contains, timestamp_fresh}
use uav_omnet.Protocol.GroundStation.{find_by_tid}
use uav_omnet.Protocol.Handshake.Agreement.{IsReady, Agreement, phase2_agrees}
use uav_omnet.Tests.Toy.{sha3_256, sum}
use uav_omnet.Tests.World.{
  extractor, env, env-IsWorking, puf, seeded, first_device, station, drone, drawn, after_draw,
}

pub ready : IsReady env puf drone station first_device 100 150 200
unfolding seeded Drbg.bytes Drbg.fill Drbg.refill_if_read Drbg.refill Drbg.take_some
    Drbg.counter_bytes Drbg.reseed sha3_256 sum take drop contains timestamp_fresh find_by_tid
    bytes_eq replicate
ready = record {
  provisioned = refl;
  fe = extractor;
  noisy = _;
  rng = _;
  has_extractor = refl;
  evaluates = refl;
  reproduces = refl;
  known = refl;
  registered = ground arith;
  n1 = drawn 16 (seeded 2);
  n1_rng = after_draw 16 (seeded 2);
  draws_n1 = refl;
  unseen_n1 = refl;
  n2 = drawn 16 (seeded 1);
  n2_rng = after_draw 16 (seeded 1);
  draws_n2 = refl;
  unseen_n2 = refl;
  t1_fits = omega arith;
  t2_fits = omega arith;
  m1_in_time = refl;
  m2_in_time = refl;
}

phase2_agrees_example : Agreement env puf drone station first_device 100 150 200 250 300
phase2_agrees_example =
    phase2_agrees env env-IsWorking puf drone station first_device 100 150 200 250 300 ready

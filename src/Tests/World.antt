-- ===== src/Tests/World.antt =====
-- A ground station with two enrolled drones, in the small concrete environment.
use uav_omnet.Base.{ℕ, true, false, Option, none, some, [], ◌∷◌, Bytes, pos, arith}
use uav_omnet.Crypto.Drbg.{Drbg}
use uav_omnet.Crypto.Drbg
use uav_omnet.Fe.Params.{Extractor, default_params}
use uav_omnet.Protocol.Replay.{empty_cache}
use uav_omnet.Protocol.State.{
  Env, PufModel, DeviceRecord, GroundStation, Uav, no_helper, no_phase2, no_device, no_state,
}
use uav_omnet.Protocol.Handshake.Agreement.{IsWorking}
use uav_omnet.Tests.Toy.{
  core, core-IsBigEndian, suite, suite-IsFunctional, ossl, ossl-IsDiffieHellman, sha3_256,
  sha3_256-positive,
}

abbrev pub extractor : Extractor
extractor = record {
  required_puf_bits = 16;
  gen = λ response seed. some (record { helper = no_helper; mk = response; ok = true });
  rep = λ response helper. some (record { mk = response; ok = true });
}

abbrev pub env : Env
env = record {
  core = core;
  suite = suite;
  ossl = ossl;
  sha3_256 = sha3_256;
  fe_params = default_params;
  extractor = some extractor;
}

pub env-IsWorking : IsWorking env
env-IsWorking = record {
  functional = suite-IsFunctional;
  key_exchange = ossl-IsDiffieHellman;
  big_endian = core-IsBigEndian;
  hash_positive = sha3_256-positive;
  key_positive = omega arith;
  key_short = omega arith;
}

-- A device that answers its challenge with the challenge and its own byte.
abbrev pub puf : PufModel
puf = record {
  evaluate_ideal = λ challenge bits. 5 ∷ challenge;
  evaluate_noisy = λ challenge bits rng. (5 ∷ challenge, rng);
}

unfoldable pub seeded : ℕ → Drbg
unfolding Drbg.reseed sha3_256
seeded n = Drbg.reseed sha3_256 (n ∷ [])

abbrev pub first_device : DeviceRecord
first_device = record no_device {
  uav_id = pos 0;
  tid = 10 ∷ 11 ∷ [];
  challenge = 1 ∷ 2 ∷ [];
  mk = 5 ∷ 1 ∷ 2 ∷ [];
  enrolled = true;
}

abbrev pub second_device : DeviceRecord
second_device = record no_device {
  uav_id = pos 1;
  tid = 20 ∷ 21 ∷ [];
  challenge = 3 ∷ [];
  mk = 5 ∷ 3 ∷ [];
  enrolled = true;
}

abbrev pub station : GroundStation
station = record {
  window_ms = 1000;
  num_uavs = pos 2;
  gs_master_key = 7 ∷ 7 ∷ [];
  devices = (pos 0, first_device) ∷ (pos 1, second_device) ∷ [];
  sessions = [];
  replay = empty_cache 4096;
  rng = seeded 1;
}

abbrev pub drone : Uav
drone = record {
  uav_id = pos 0;
  window_ms = 1000;
  legacy_no_gs_auth = false;
  state = record no_state {
    uav_id = pos 0;
    tid = 10 ∷ 11 ∷ [];
    challenge = 1 ∷ 2 ∷ [];
    provisioned = true;
  };
  phase2 = no_phase2;
  peers = [];
  replay = empty_cache 4096;
  rng = seeded 2;
}

-- A draw's bytes, and the generator after it.
abbrev bytes_drawn : Option (Bytes × Drbg) → Bytes
bytes_drawn none = []
bytes_drawn (some (out, d)) = out

abbrev rest_drawn : Drbg → Option (Bytes × Drbg) → Drbg
rest_drawn d none = d
rest_drawn d (some (out, d')) = d'

abbrev pub drawn : ℕ → Drbg → Bytes
drawn n d = bytes_drawn (Drbg.bytes sha3_256 n d)

abbrev pub after_draw : ℕ → Drbg → Drbg
after_draw n d = rest_drawn d (Drbg.bytes sha3_256 n d)

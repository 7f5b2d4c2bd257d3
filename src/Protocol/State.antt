-- ===== src/Protocol/State.antt =====
-- Protocol.h: the records of both sides, and what the handlers are given. The device's PUF, OpenSSL
-- and the hash of the generator are parameters; timings are left out.
use uav_omnet.Base.{ℕ, Bool, false, Option, [], Bytes, ℤ, negsuc, StdMap}
use uav_omnet.Core.{CoreLib}
use uav_omnet.Crypto.Suite.{CryptoSuite}
use uav_omnet.Crypto.X25519.{Ossl, X25519KeyPair, no_key_pair}
use uav_omnet.Crypto.Drbg.{Drbg}
use uav_omnet.Fe.Params.{Extractor, FeParams, HelperData, default_params}
use uav_omnet.Protocol.Replay.{ReplayCache}

abbrev pub nonce_len : ℕ
nonce_len = 16

abbrev pub tid_len : ℕ
tid_len = 16

-- What a protocol object is constructed with. `extractor` is what the constructor of
-- `FuzzyExtractor` gives for the parameters; `none` is its exception.
pub record Env : Type 0 where
  pub core : CoreLib
  pub suite : CryptoSuite
  pub ossl : Ossl
  pub sha3_256 : Bytes → Bytes
  pub fe_params : FeParams
  pub extractor : Option Extractor

-- puf/PufModel.h: a device's response to a challenge, ideal or with noise from the generator.
pub record PufModel : Type 0 where
  pub evaluate_ideal : Bytes → ℕ → Bytes
  pub evaluate_noisy : Bytes → ℕ → Drbg → Bytes × Drbg

pub record DeviceRecord : Type 0 where
  pub uav_id : ℤ
  pub tid : Bytes
  pub pending_tid : Bytes
  pub challenge : Bytes
  pub helper : HelperData
  pub mk : Bytes
  pub enrolled : Bool

pub record DeviceState : Type 0 where
  pub uav_id : ℤ
  pub tid : Bytes
  pub challenge : Bytes
  pub helper : HelperData
  pub provisioned : Bool

pub record Phase2UavSession : Type 0 where
  pub mk : Bytes
  pub auth_key : Bytes
  pub n1 : Bytes
  pub n2 : Bytes
  pub tid_at_request : Bytes
  pub t1 : ℕ
  pub ephemeral : X25519KeyPair
  pub transcript : Bytes
  pub session_key : Bytes
  pub established : Bool
  pub ephemeral_erased : Bool
  pub peer_credentials : StdMap Bytes
  pub peer_tids : StdMap Bytes

pub record Phase2GsSession : Type 0 where
  pub uav_id : ℤ
  pub auth_key : Bytes
  pub n1 : Bytes
  pub n2 : Bytes
  pub t1 : ℕ
  pub t2 : ℕ
  pub epk_a : Bytes
  pub epk_b : Bytes
  pub ephemeral : X25519KeyPair
  pub transcript : Bytes
  pub session_key : Bytes
  pub m3_verified : Bool
  pub ephemeral_erased : Bool

pub record Phase3Session : Type 0 where
  pub local_id : ℤ
  pub peer_id : ℤ
  pub initiator : Bool
  pub auth_key : Bytes
  pub nonce_local : Bytes
  pub nonce_remote : Bytes
  pub ephemeral : X25519KeyPair
  pub epk_local : Bytes
  pub epk_remote : Bytes
  pub p1_encoded : Bytes
  pub p2_encoded : Bytes
  pub session_key : Bytes
  pub established : Bool
  pub ephemeral_erased : Bool

pub record GroundStation : Type 0 where
  pub window_ms : ℕ
  pub num_uavs : ℤ
  pub gs_master_key : Bytes
  pub devices : StdMap DeviceRecord
  pub sessions : StdMap Phase2GsSession
  pub replay : ReplayCache
  pub rng : Drbg

pub record Uav : Type 0 where
  pub uav_id : ℤ
  pub window_ms : ℕ
  pub legacy_no_gs_auth : Bool
  pub state : DeviceState
  pub phase2 : Phase2UavSession
  pub peers : StdMap Phase3Session
  pub replay : ReplayCache
  pub rng : Drbg

-- The records as they are declared, before anything is assigned.
abbrev pub no_helper : HelperData
no_helper = record { sketch = []; rep_offsets = []; seed = []; params = default_params }

abbrev pub no_device : DeviceRecord
no_device = record {
  uav_id = negsuc 0;
  tid = [];
  pending_tid = [];
  challenge = [];
  helper = no_helper;
  mk = [];
  enrolled = false;
}

abbrev pub no_state : DeviceState
no_state = record {
  uav_id = negsuc 0;
  tid = [];
  challenge = [];
  helper = no_helper;
  provisioned = false;
}

abbrev pub no_phase2 : Phase2UavSession
no_phase2 = record {
  mk = [];
  auth_key = [];
  n1 = [];
  n2 = [];
  tid_at_request = [];
  t1 = 0;
  ephemeral = no_key_pair;
  transcript = [];
  session_key = [];
  established = false;
  ephemeral_erased = false;
  peer_credentials = [];
  peer_tids = [];
}

abbrev pub no_gs_session : Phase2GsSession
no_gs_session = record {
  uav_id = negsuc 0;
  auth_key = [];
  n1 = [];
  n2 = [];
  t1 = 0;
  t2 = 0;
  epk_a = [];
  epk_b = [];
  ephemeral = no_key_pair;
  transcript = [];
  session_key = [];
  m3_verified = false;
  ephemeral_erased = false;
}

abbrev pub no_peer_session : Phase3Session
no_peer_session = record {
  local_id = negsuc 0;
  peer_id = negsuc 0;
  initiator = false;
  auth_key = [];
  nonce_local = [];
  nonce_remote = [];
  ephemeral = no_key_pair;
  epk_local = [];
  epk_remote = [];
  p1_encoded = [];
  p2_encoded = [];
  session_key = [];
  established = false;
  ephemeral_erased = false;
}

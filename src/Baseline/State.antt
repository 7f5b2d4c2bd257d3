-- ===== src/Baseline/State.antt =====
-- BaselineSigAuth.h: the records of both sides, and what they are given.
use uav_omnet.Base.{ℕ, Bool, false, Option, [], Bytes, ℤ, negsuc, StdMap}
use uav_omnet.Core.{CoreLib}
use uav_omnet.Crypto.Suite.{CryptoSuite}
use uav_omnet.Crypto.Signature.{SignatureSuite}
use uav_omnet.Crypto.X25519.{Ossl, X25519KeyPair, no_key_pair}
use uav_omnet.Crypto.Drbg.{Drbg}
use uav_omnet.Protocol.Replay.{ReplayCache}

pub record BaselineEnv (Key : Type 0) : Type 0 where
  pub core : CoreLib
  pub sig_suite : SignatureSuite Key
  pub sym_suite : CryptoSuite
  pub ossl : Ossl
  pub sha3_256 : Bytes → Bytes

pub record BaselineGsSession : Type 0 where
  pub uav_id : ℤ
  pub n1 : Bytes
  pub n2 : Bytes
  pub t1 : ℕ
  pub t2 : ℕ
  pub epk_a : Bytes
  pub epk_b : Bytes
  pub ephemeral : X25519KeyPair
  pub transcript : Bytes
  pub session_key : Bytes
  pub ephemeral_erased : Bool

pub record BaselineUavSession : Type 0 where
  pub n1 : Bytes
  pub n2 : Bytes
  pub t1 : ℕ
  pub ephemeral : X25519KeyPair
  pub transcript : Bytes
  pub session_key : Bytes
  pub established : Bool
  pub ephemeral_erased : Bool

pub record BaselineGroundStation (Key : Type 0) : Type 0 where
  pub window_ms : ℕ
  pub keypair : Option Key
  pub uav_public_keys : StdMap (Option Key)
  pub sessions : StdMap BaselineGsSession
  pub replay : ReplayCache
  pub rng : Drbg

pub record BaselineUav (Key : Type 0) : Type 0 where
  pub uav_id : ℤ
  pub window_ms : ℕ
  pub keypair : Option Key
  pub gs_public_key : Option Key
  pub session : BaselineUavSession
  pub replay : ReplayCache
  pub rng : Drbg

-- The sessions as they are declared.
abbrev pub no_baseline_gs_session : BaselineGsSession
no_baseline_gs_session = record {
  uav_id = negsuc 0;
  n1 = [];
  n2 = [];
  t1 = 0;
  t2 = 0;
  epk_a = [];
  epk_b = [];
  ephemeral = no_key_pair;
  transcript = [];
  session_key = [];
  ephemeral_erased = false;
}

abbrev pub no_baseline_uav_session : BaselineUavSession
no_baseline_uav_session = record {
  n1 = [];
  n2 = [];
  t1 = 0;
  ephemeral = no_key_pair;
  transcript = [];
  session_key = [];
  established = false;
  ephemeral_erased = false;
}

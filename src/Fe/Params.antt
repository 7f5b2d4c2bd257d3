-- ===== src/Fe/Params.antt =====
-- fe/FuzzyExtractor.h: the parameters, the public helper data, and the extractor as the protocol
-- calls it. Statistics and timings are left out. The assumed min-entropy rate is a `double` and is
-- left out with the budget check that reads it.
use Prim.Native.String.{String}
use uav_omnet.Base.{ℕ, Bool, true, Option, none, some, List, Bytes, if◌then◌else◌}
use text.Mathlib.Text.{◌==◌ as str_eq}

pub record FeParams : Type 0 where
  pub block_bits : ℕ
  pub bch_t : ℕ
  pub num_blocks : ℕ
  pub rep_factor : ℕ
  pub key_bits : ℕ
  pub eps_log2 : ℕ
  pub seed_bytes : ℕ
  pub check_budget : Bool
  pub profile_name : String

-- The parameters as they are declared.
abbrev pub default_params : FeParams
default_params = record {
  block_bits = 255;
  bch_t = 18;
  num_blocks = 4;
  rep_factor = 1;
  key_bits = 256;
  eps_log2 = 64;
  seed_bytes = 32;
  check_budget = true;
  profile_name = "bch255-131-18";
}

-- `none` is the exception on an unknown name.
unfoldable pub profile : String → Option FeParams
profile name =
    let p = record default_params { profile_name = name } in
    if str_eq name "bch255-131-18"
    then some (record p { bch_t = 18; num_blocks = 4; rep_factor = 1 })
    else if str_eq name "bch255-91-25"
    then some (record p { bch_t = 25; num_blocks = 5; rep_factor = 1 })
    else if str_eq name "rep3-bch255-131-18"
    then some (record p { bch_t = 18; num_blocks = 5; rep_factor = 3 })
    else none

pub record HelperData : Type 0 where
  pub sketch : List Bytes
  pub rep_offsets : Bytes
  pub seed : Bytes
  pub params : FeParams

pub record GenResult : Type 0 where
  pub helper : HelperData
  pub mk : Bytes
  pub ok : Bool

pub record RepResult : Type 0 where
  pub mk : Bytes
  pub ok : Bool

-- A constructed extractor; `none` is an exception.
pub record Extractor : Type 0 where
  pub required_puf_bits : ℕ
  pub gen : Bytes → Bytes → Option GenResult
  pub rep : Bytes → HelperData → Option RepResult

-- ===== src/Protocol/Handshake/Registry.antt =====
-- Protocol.cc: the device map of a ground station whose ids are those of drones, and the package
-- that is made of it.
use uav_omnet.Base.{
  ℕ, suc, ◌+◌, ◌≤◌, ◌<◌, ◌≡◌, some, [], ◌∷◌, Bytes, length, ℤ, pos, eq_ℤ, eq_ℤ_iff, StdMap, lookup,
  Bool-cases, inl, inr, arith,
}
use uav_omnet.Crypto.Suite.{IsFunctional}
use uav_omnet.Crypto.Label
use uav_omnet.Protocol.Credentials.RoundTrip.{Aligned}
use uav_omnet.Protocol.State.{Env, DeviceRecord}
use uav_omnet.Protocol.GroundStation.{
  answers_to, find_by_tid, pair_credential, credentials_for, tids_for,
}

-- The ids ascend from `low` and lie below 65535, which is the ground station's on the wire; each
-- record is filed under its id, and its identity has a length of two bytes.
abbrev pub Registered : ℕ → StdMap DeviceRecord → Type 0
Registered low [] = Unit {0}
Registered low ((k, r) ∷ m) =
    (n : ℕ) × (k ≡ pos n)
    × (r.uav_id ≡ pos n)
    × (low ≤ n)
    × (n < 65535)
    × (length r.tid < 65536)
    × Registered (suc n) m

Aligned-weaken :
    (low low' : ℕ) (creds tids : StdMap Bytes)
    → low ≤ low'
    → Aligned low' creds tids
    → Aligned low creds tids
Aligned-weaken low low' [] [] le a = tt
Aligned-weaken low low' [] (y ∷ ys) le a = a
Aligned-weaken low low' (x ∷ xs) [] le a = a
Aligned-weaken low low' ((k, c) ∷ cs) ((j, t) ∷ ts) le (n, ek, ej, l, lt, sc, st, more) =
    (n, ek, ej, omega arith, lt, sc, st, more)

-- A device that is found by its identity is the one filed under its id.
pub find_by_tid-Registered :
    (low : ℕ) (tid : Bytes) (m : StdMap DeviceRecord) (rec : DeviceRecord)
    → Registered low m
    → find_by_tid tid m ≡ some rec
    → (n : ℕ) × (rec.uav_id ≡ pos n) × (low ≤ n)
unfolding find_by_tid
find_by_tid-Registered low tid [] rec g h = ground arith
find_by_tid-Registered low tid ((k, r) ∷ m) rec (n, ek, er, le, lt, st, more) h =
    elim (Bool-cases (answers_to tid r)) [
      | inl hit ↦ (n, ground arith, le)
      | inr miss ↦
          let (i, ei, li) = find_by_tid-Registered (suc n) tid m rec more (ground arith) in
          (i, ei, omega arith)
    ]

pub lookup-find_by_tid :
    (low : ℕ) (tid : Bytes) (m : StdMap DeviceRecord) (rec : DeviceRecord)
    → Registered low m
    → find_by_tid tid m ≡ some rec
    → lookup rec.uav_id m ≡ some rec
unfolding find_by_tid lookup
lookup-find_by_tid low tid [] rec g h = ground arith
lookup-find_by_tid low tid ((k, r) ∷ m) rec (n, ek, er, le, lt, st, more) h =
    elim (Bool-cases (answers_to tid r)) [
      | inl hit ↦ ground (arith, eq_ℤ_iff k rec.uav_id)
      | inr miss ↦
          let found : find_by_tid tid m ≡ some rec = ground arith in
          let (i, ei, li) = find_by_tid-Registered (suc n) tid m rec more found in
          ground (arith, eq_ℤ_iff k rec.uav_id, lookup-find_by_tid (suc n) tid m rec more found)
    ]

module _ (env : Env) (functional : IsFunctional env.suite) (short : env.suite.key_len < 65536) where
  -- The credentials and the identities of the package have the same peers.
  pub credentials_for-Aligned :
      (master : Bytes) (id : ℤ) (low : ℕ) (m : StdMap DeviceRecord)
      → Registered low m
      → Aligned low (credentials_for env master id m) (tids_for env id m)
  unfolding credentials_for tids_for pair_credential
  credentials_for-Aligned master id low [] g = tt
  credentials_for-Aligned master id low ((k, r) ∷ m) (n, ek, er, le, lt, st, more) =
      elim (Bool-cases (eq_ℤ k id)) [
        | inl own ↦ rw own (
            Aligned-weaken low (suc n) (credentials_for env master id m) (tids_for env id m)
              (omega arith) (credentials_for-Aligned master id (suc n) m more))
        | inr other ↦ rw other (
          n,
          ek,
          ek,
          le,
          omega arith,
          omega (arith, functional.length-kdf master [] Label.pair_cred _ env.suite.key_len),
          st,
          credentials_for-Aligned master id (suc n) m more,
        )
      ]

  pub length-credentials_for :
      (master : Bytes) (id : ℤ) (low : ℕ) (m : StdMap DeviceRecord)
      → Registered low m
      → low ≤ 65535
      → low + length (credentials_for env master id m) ≤ 65535
  unfolding credentials_for
  length-credentials_for master id low [] g bound = omega arith
  length-credentials_for master id low ((k, r) ∷ m) (n, ek, er, le, lt, st, more) bound =
      ground (arith, length-credentials_for master id (suc n) m more (omega arith))

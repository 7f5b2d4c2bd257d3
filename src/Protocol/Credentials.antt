-- ===== src/Protocol/Credentials.antt =====
-- Protocol.cc: the credential package of M4, u16(count), then for each peer u16(id), a prefixed
-- credential and a prefixed temporary identity, then the prefixed new identity.
pub mod RoundTrip
use uav_omnet.Base.{
  ◌>>=◌, or_empty, ℕ, zero, suc, ◌+◌, ◌-◌, ◌%◌, Option, none, some, List, [], ◌∷◌, ◌++◌, Bytes, ltb,
  ◌==◌, if◌then◌else◌, length, take, drop, ℤ, pos, to_u16, StdMap, lookup, insert,
}
use uav_omnet.Core.{CoreLib}

pub record Package : Type 0 where
  pub creds : StdMap Bytes
  pub tids : StdMap Bytes
  pub tid_new : Bytes

module _ (c : CoreLib) where
  unfoldable pub pack_entries : StdMap Bytes → StdMap Bytes → Bytes
  pack_entries [] tids = []
  pack_entries ((id, cred) ∷ rest) tids =
      c.u16be (to_u16 id)
      ++ (c.length_prefixed cred
          ++ (c.length_prefixed (or_empty (lookup id tids)) ++ pack_entries rest tids))

  unfoldable pub pack_credentials : StdMap Bytes → StdMap Bytes → Bytes → Bytes
  unfolding pack_entries
  pack_credentials creds tids tid_new =
      c.u16be (length creds % 65536) ++ (pack_entries creds tids ++ c.length_prefixed tid_new)

  -- A two-byte length at an offset and as many bytes after it, with the offset behind them; `none`
  -- where the source throws or returns false.
  unfoldable pub read_prefixed : Bytes → ℕ → Option (Bytes × ℕ)
  read_prefixed blob off = do
    size ← c.read_u16be blob off
    if ltb (length blob) (off + 2 + size)
        then none
        else some (take size (drop (off + 2) blob), off + 2 + size)

  -- The loop over the entries, with the rounds left.
  unfoldable pub unpack_entries :
      ℕ → Bytes → ℕ → StdMap Bytes → StdMap Bytes → Option (StdMap Bytes × StdMap Bytes × ℕ)
  unpack_entries zero blob off creds tids = some (creds, tids, off)
  unpack_entries (suc left) blob off creds tids = do
    id ← c.read_u16be blob off
    cred ← read_prefixed blob (off + 2)
    tid ← read_prefixed blob cred.1
    unpack_entries left blob tid.1 (insert (pos id) cred.0 creds) (insert (pos id) tid.0 tids)

  unfoldable pub unpack_credentials : Bytes → Option Package
  unpack_credentials blob = do
    count ← c.read_u16be blob 0
    entries ← unpack_entries count blob 2 [] []
    size ← c.read_u16be blob entries.2
    if entries.2 + 2 + size == length blob
        then some
            (record { creds = entries.0; tids = entries.1; tid_new = drop (entries.2 + 2) blob })
        else none

-- ===== src/Protocol/Credentials/RoundTrip.antt =====
-- Protocol.cc, `packCredentials` and `unpackCredentials`: the package survives.
use mathlib.Core.List.{append_assoc, append-nil}
use mathlib.Core.Path.{subst}
use uav_omnet.Base.{
  ℕ, suc, ◌+◌, ◌%◌, ◌≤◌, ◌<◌, ◌≡◌, refl, sym, ap, ◌∙◌, some, [], ◌∷◌, ◌++◌, Bytes, length, take,
  drop, length-append, length-take, length-drop, drop-append, take-append, take-append-drop,
  drop-add, ℤ, pos, eq_ℤ, ltb_ℤ, eq_ℤ_iff, to_u16, ==_refl, StdMap, lookup, insert, arith,
}
use uav_omnet.Core.{CoreLib, IsBigEndian}
use uav_omnet.Protocol.Credentials.{
  pack_entries, pack_credentials, read_prefixed, unpack_entries, unpack_credentials,
}

-- What stands in a blob from an offset on.
record At (blob : Bytes) (off : ℕ) (rest : Bytes) : Type 0 where
  inside : off ≤ length blob
  here : drop off blob ≡ rest

At-append :
    (blob : Bytes) (off : ℕ) (x rest : Bytes)
    → At blob off (x ++ rest)
    → At blob (off + length x) rest
At-append blob off x rest at = record {
  inside = omega (arith, length-append x rest, length-drop off blob, ap length at.here, at.inside);
  here = drop-add off (length x) blob ∙ (rw at.here (drop-append x rest));
}

module _ (c : CoreLib) (big_endian : IsBigEndian c) where
  read_u16be-At :
      (blob : Bytes) (off v : ℕ) (rest : Bytes)
      → At blob off (c.u16be v ++ rest)
      → v < 65536
      → c.read_u16be blob off ≡ some v
  read_u16be-At blob off v rest at small =
      subst (λ n. c.read_u16be blob n ≡ some v) (length-take off blob at.inside)
        (subst (λ b. c.read_u16be b (length (take off blob)) ≡ some v) whole
          (big_endian.read_u16be-u16be (take off blob) rest v small))
    where
      whole : take off blob ++ (c.u16be v ++ rest) ≡ blob
      whole = ap (λ r. take off blob ++ r) (sym at.here) ∙ take-append-drop off blob

  At-u16be :
      (blob : Bytes) (off v : ℕ) (rest : Bytes)
      → At blob off (c.u16be v ++ rest)
      → At blob (off + 2) rest
  At-u16be blob off v rest at =
      subst (λ n. At blob (off + n) rest) (big_endian.length-u16be v)
        (At-append blob off (c.u16be v) rest at)

  -- A prefixed string is read back, and the reader stands behind it.
  read_prefixed-At :
      (blob : Bytes) (off : ℕ) (b rest : Bytes)
      → At blob off (c.length_prefixed b ++ rest)
      → length b < 65536
      → (read_prefixed c blob off ≡ some (b, off + 2 + length b))
        × At blob (off + 2 + length b) rest
  unfolding read_prefixed
  read_prefixed-At blob off b rest at small =
      let prefixed : c.length_prefixed b ++ rest ≡ c.u16be (length b) ++ (b ++ rest) =
        rw (big_endian.length_prefixed_lem b small) (append_assoc (c.u16be (length b)) b rest) in
      let at' = subst (At blob off) prefixed at in
      let body = At-u16be blob off (length b) (b ++ rest) at' in
      let behind = At-append blob (off + 2) b rest body in
      (
        rw (read_u16be-At blob off (length b) (b ++ rest) at' small, body.here, take-append b rest)
            (ground (arith, behind.inside)),
        behind,
      )

-- Two maps with the same keys, which ascend from `low` and are ids below 65536, and with values that
-- a two-byte length can count.
abbrev pub Aligned : ℕ → StdMap Bytes → StdMap Bytes → Type 0
Aligned low [] [] = Unit {0}
Aligned low [] (y ∷ ys) = ⊥
Aligned low (x ∷ xs) [] = ⊥
Aligned low ((k, cred) ∷ creds) ((j, tid) ∷ tids) =
    (n : ℕ) × (k ≡ pos n)
    × (j ≡ pos n)
    × (low ≤ n)
    × (n < 65536)
    × (length cred < 65536)
    × (length tid < 65536)
    × Aligned (suc n) creds tids

-- Every key of the map is an id below `high`.
abbrev AllBelow : ℕ → StdMap Bytes → Type 0
AllBelow high [] = Unit {0}
AllBelow high ((k, v) ∷ m) = ((n : ℕ) × (k ≡ pos n) × (n < high)) × AllBelow high m

insert-append :
    (high n : ℕ) (v : Bytes) (m : StdMap Bytes)
    → AllBelow high m
    → high ≤ n
    → insert (pos n) v m ≡ m ++ (pos n, v) ∷ []
unfolding insert eq_ℤ ltb_ℤ
insert-append high n v [] b h = refl
insert-append high n v ((k, w) ∷ m) b h =
    let (i, e, lt) = b.0 in rw e (ground (arith, insert-append high n v m b.1 h))

AllBelow-append :
    (high n : ℕ) (v : Bytes) (m : StdMap Bytes)
    → AllBelow high m
    → high ≤ n
    → AllBelow (suc n) (m ++ (pos n, v) ∷ [])
AllBelow-append high n v [] b h = ((n, refl, omega arith), tt)
AllBelow-append high n v ((k, w) ∷ m) b h =
    let (i, e, lt) = b.0 in ((i, e, omega arith), AllBelow-append high n v m b.1 h)

-- Each entry of the second map is found in the first.
abbrev AllFound : StdMap Bytes → StdMap Bytes → Type 0
AllFound all [] = Unit {0}
AllFound all ((k, v) ∷ m) = (lookup k all ≡ some v) × AllFound all m

AllFound-cons :
    (low n : ℕ) (w : Bytes) (all creds tids : StdMap Bytes)
    → n < low
    → Aligned low creds tids
    → AllFound all tids
    → AllFound ((pos n, w) ∷ all) tids
unfolding lookup
AllFound-cons low n w all [] [] lt a f = tt
AllFound-cons low n w all [] (y ∷ ys) lt a f = absurd a
AllFound-cons low n w all (x ∷ xs) [] lt a f = tt
AllFound-cons low n w all ((k, cred) ∷ creds) ((j, tid) ∷ tids) lt
      (i, ek, ej, le, bound, sc, st, more) f =
    (
      ground (arith, eq_ℤ_iff (pos n) j),
      AllFound-cons (suc i) n w all creds tids (omega arith) more f.1,
    )

AllFound-self : (low : ℕ) (creds tids : StdMap Bytes) → Aligned low creds tids → AllFound tids tids
unfolding lookup
AllFound-self low [] [] a = tt
AllFound-self low [] (y ∷ ys) a = absurd a
AllFound-self low (x ∷ xs) [] a = tt
AllFound-self low ((k, cred) ∷ creds) ((j, tid) ∷ tids) (n, ek, ej, le, lt, sc, st, more) = (
  ground (arith, eq_ℤ_iff j j),
  subst (λ x. AllFound ((x, tid) ∷ tids) tids) (sym ej)
      (AllFound-cons (suc n) n tid tids creds tids (omega arith) more
        (AllFound-self (suc n) creds tids more)),
)

to_u16-pos : (n : ℕ) → n < 65536 → to_u16 (pos n) ≡ n
unfolding to_u16
to_u16-pos n h = omega arith

module _ (c : CoreLib) (big_endian : IsBigEndian c) where
  pack_entries-cons :
      (n : ℕ) (k : ℤ) (cred tid : Bytes) (creds all : StdMap Bytes) (rest : Bytes)
      → k ≡ pos n
      → n < 65536
      → lookup k all ≡ some tid
      → pack_entries c ((k, cred) ∷ creds) all ++ rest
        ≡ c.u16be n
          ++ (c.length_prefixed cred
              ++ (c.length_prefixed tid ++ (pack_entries c creds all ++ rest)))
  unfolding pack_entries
  pack_entries-cons n k cred tid creds all rest ek lt found =
      rw found (rw ek (rw (to_u16-pos n lt) (simp append_assoc)))

  unpack_entries-pack_entries :
      (low : ℕ) (creds tids all earlier_creds earlier_tids : StdMap Bytes) (blob : Bytes) (off : ℕ)
      (rest : Bytes)
      → Aligned low creds tids
      → AllFound all tids
      → AllBelow low earlier_creds
      → AllBelow low earlier_tids
      → At blob off (pack_entries c creds all ++ rest)
      → (off' : ℕ) × (unpack_entries c (length creds) blob off earlier_creds earlier_tids
          ≡ some (earlier_creds ++ creds, earlier_tids ++ tids, off'))
        × At blob off' rest
  unfolding unpack_entries pack_entries
  unpack_entries-pack_entries low [] [] all ec et blob off rest a f bc bt at =
      (off, rw (append-nil ec, append-nil et) refl, at)
  unpack_entries-pack_entries low [] (y ∷ ys) all ec et blob off rest a f bc bt at = absurd a
  unpack_entries-pack_entries low (x ∷ xs) [] all ec et blob off rest a f bc bt at = absurd a
  unpack_entries-pack_entries low ((k, cred) ∷ creds) ((j, tid) ∷ tids) all ec et blob off rest
        (n, ek, ej, le, lt, sc, st, more) f bc bt at =
      let behind_tid = c.length_prefixed tid ++ (pack_entries c creds all ++ rest) in
      let shape =
        pack_entries-cons n k cred tid creds all rest ek lt
          (subst (λ x. lookup x all ≡ some tid) (ej ∙ sym ek) f.0) in
      let at_id = subst (At blob off) shape at in
      let read_id =
        read_u16be-At c big_endian blob off n (c.length_prefixed cred ++ behind_tid) at_id lt in
      let at_cred = At-u16be c big_endian blob off n (c.length_prefixed cred ++ behind_tid) at_id in
      let (read_cred, at_tid) =
        read_prefixed-At c big_endian blob (off + 2) cred behind_tid at_cred sc in
      let off_tid = off + 2 + 2 + length cred in
      let (read_tid, at_rest) =
        read_prefixed-At c big_endian blob off_tid tid (pack_entries c creds all ++ rest) at_tid
          st in
      let (off', runs, at_end) =
        unpack_entries-pack_entries (suc n) creds tids all (ec ++ (pos n, cred) ∷ [])
          (et ++ (pos n, tid) ∷ []) blob (off_tid + 2 + length tid) rest more f.1
          (AllBelow-append low n cred ec bc le) (AllBelow-append low n tid et bt le) at_rest in
      (
        off',
        rw
            (
              read_id,
              read_cred,
              read_tid,
              insert-append low n cred ec bc le,
              insert-append low n tid et bt le,
              ek,
              ej,
            )
            (runs ∙ rw (append_assoc, append_assoc)),
        at_end,
      )

  unpack_credentials-At :
      (creds tids : StdMap Bytes) (tid_new blob : Bytes)
      → Aligned 0 creds tids
      → length creds < 65536
      → length tid_new < 65536
      → At blob 0
          (c.u16be (length creds) ++ (pack_entries c creds tids ++ c.length_prefixed tid_new))
      → unpack_credentials c blob ≡ some (record { creds = creds; tids = tids; tid_new = tid_new })
  unfolding unpack_credentials
  unpack_credentials-At creds tids tid_new blob aligned few short at =
      let tail = pack_entries c creds tids ++ c.length_prefixed tid_new in
      let read_count = read_u16be-At c big_endian blob 0 (length creds) tail at few in
      let (off, runs, at_new) =
        unpack_entries-pack_entries 0 creds tids tids [] [] blob 2 (c.length_prefixed tid_new)
          aligned (AllFound-self 0 creds tids aligned) tt tt
          (At-u16be c big_endian blob 0 (length creds) tail at) in
      let at_size = subst (At blob off) (big_endian.length_prefixed_lem tid_new short) at_new in
      let read_size = read_u16be-At c big_endian blob off (length tid_new) tid_new at_size short in
      let at_body = At-u16be c big_endian blob off (length tid_new) tid_new at_size in
      let whole : off + 2 + length tid_new ≡ length blob =
        omega (arith, ap length at_body.here, length-drop (off + 2) blob, at_body.inside) in
      rw (read_count, runs, read_size, whole, at_body.here, ==_refl (length blob)) refl

  -- What `packCredentials` writes, `unpackCredentials` reads back: the credentials, the identities of
  -- the same peers and the new identity, for fewer than 65536 peers with ids below 65536 and values
  -- shorter than 65536 bytes.
  pub unpack_credentials-pack_credentials :
      (creds tids : StdMap Bytes) (tid_new : Bytes)
      → Aligned 0 creds tids
      → length creds < 65536
      → length tid_new < 65536
      → unpack_credentials c (pack_credentials c creds tids tid_new)
        ≡ some (record { creds = creds; tids = tids; tid_new = tid_new })
  unfolding pack_credentials drop
  unpack_credentials-pack_credentials creds tids tid_new aligned few short =
      let tail = pack_entries c creds tids ++ c.length_prefixed tid_new in
      let counted : length creds % 65536 ≡ length creds = omega arith in
      subst
        (λ n.
          unpack_credentials c (c.u16be n ++ tail)
          ≡ some (record { creds = creds; tids = tids; tid_new = tid_new }))
        (sym counted)
        (unpack_credentials-At creds tids tid_new (c.u16be (length creds) ++ tail) aligned few short
          (record { inside = omega arith; here = refl }))

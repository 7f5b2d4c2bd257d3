-- ===== src/Protocol/Replay/Window.antt =====
-- Protocol.cc, `ReplayCache` and `timestampFresh`: the cache as a window over the accepted nonces.
use uav_omnet.Base.{
  ℕ, suc, ◌+◌, ◌≤◌, ◌<◌, ◌≡◌, ◌↔◌, refl, sym, ◌∙◌, true, false, inl, inr, List, [], ◌∷◌, ◌++◌, ◌||◌,
  Bytes, bytes_eq, bytes_eq_iff, bytes_eq_refl, ltb, length, length-append, Bool-cases, arith,
}
use mathlib.Core.List.{append_assoc}
use mathlib.Core.Path.{subst}
use uav_omnet.Protocol.Replay.{ReplayCache, timestamp_fresh, contains, erase, evict, offer}

-- A time is fresh exactly when it lies at most the window before or after now.
pub timestamp_fresh_iff :
    (now_ms msg_ms window_ms : ℕ)
    → (timestamp_fresh now_ms msg_ms window_ms ≡ true)
      ↔ ((now_ms ≤ msg_ms + window_ms) × (msg_ms ≤ now_ms + window_ms))
unfolding timestamp_fresh
timestamp_fresh_iff now_ms msg_ms window_ms = ground arith

contains-append :
    (b : Bytes) (xs ys : List Bytes) → contains b (xs ++ ys) ≡ (contains b xs || contains b ys)
unfolding contains
contains-append b [] ys = refl
contains-append b (x ∷ xs) ys = ground (arith, contains-append b xs ys)

-- No nonce stands twice.
abbrev pub AllDistinct : List Bytes → Type 0
AllDistinct [] = Unit {0}
AllDistinct (x ∷ xs) = (contains x xs ≡ false) × AllDistinct xs

contains-erase_ne :
    (a b : Bytes) (xs : List Bytes) → bytes_eq a b ≡ false → contains b (erase a xs) ≡ contains b xs
unfolding contains erase
contains-erase_ne a b [] h = refl
contains-erase_ne a b (x ∷ xs) h = ground (arith, contains-erase_ne a b xs h, bytes_eq_iff x a)

contains-erase_self :
    (a : Bytes) (xs : List Bytes) → AllDistinct xs → contains a (erase a xs) ≡ false
unfolding contains erase
contains-erase_self a [] d = refl
contains-erase_self a (x ∷ xs) d = ground (arith, contains-erase_self a xs d.1, bytes_eq_iff x a)

contains-erase_le :
    (a b : Bytes) (xs : List Bytes) → contains b xs ≡ false → contains b (erase a xs) ≡ false
unfolding contains erase
contains-erase_le a b [] h = refl
contains-erase_le a b (x ∷ xs) h = ground (arith, contains-erase_le a b xs)

erase-AllDistinct : (a : Bytes) (xs : List Bytes) → AllDistinct xs → AllDistinct (erase a xs)
unfolding erase contains
erase-AllDistinct a [] d = tt
erase-AllDistinct a (x ∷ xs) d =
    ground (arith, erase-AllDistinct a xs d.1, contains-erase_le a x xs)

AllDistinct-append :
    (xs : List Bytes) (b : Bytes)
    → AllDistinct xs
    → contains b xs ≡ false
    → AllDistinct (xs ++ b ∷ [])
unfolding contains
AllDistinct-append [] b d h = (refl, tt)
AllDistinct-append (x ∷ xs) b d h = ground (
  arith,
  AllDistinct-append xs b d.1,
  contains-append x xs (b ∷ []),
  bytes_eq_iff b x,
  bytes_eq_iff x b,
)

pub offer_new : (c : ReplayCache) (n : Bytes) → contains n c.seen ≡ false → (offer c n).1 ≡ true
unfolding offer
offer_new c n h = rw h refl

-- The set and the queue hold the same nonces, each once, and no more than the capacity.
pub record IsCache (c : ReplayCache) : Type 0 where
  pub distinct_seen : AllDistinct c.seen
  pub distinct : AllDistinct c.order
  pub same : (b : Bytes) → contains b c.seen ≡ contains b c.order
  pub bounded : length c.order ≤ c.capacity

contains-erase_oldest :
    (x b : Bytes) (seen xs : List Bytes)
    → AllDistinct seen
    → AllDistinct (x ∷ xs)
    → contains b seen ≡ contains b (x ∷ xs)
    → contains b (erase x seen) ≡ contains b xs
unfolding contains
contains-erase_oldest x b seen xs ds d same = elim (Bool-cases (bytes_eq x b)) [
  | inl e ↦
      let eq = (bytes_eq_iff x b).0 e in
      subst (λ y. contains y (erase x seen) ≡ contains y xs) eq
        (contains-erase_self x seen ds ∙ sym d.0)
  | inr ne ↦ contains-erase_ne x b seen ne ∙ ground arith
]

evict-IsCache :
    (c : ReplayCache) (xs : List Bytes)
    → c.order ≡ xs
    → AllDistinct c.seen
    → AllDistinct xs
    → ((b : Bytes) → contains b c.seen ≡ contains b xs)
    → length xs ≤ suc c.capacity
    → IsCache (evict c xs)
unfolding evict
evict-IsCache c [] e ds d same le = record {
  distinct_seen = ds;
  distinct = rw e d;
  same = rw e same;
  bounded = rw e (omega arith);
}
evict-IsCache c (x ∷ xs) e ds d same le = elim (Bool-cases (ltb c.capacity (length c.order))) [
  | inl over ↦ rw over (record {
    distinct_seen = erase-AllDistinct x c.seen ds;
    distinct = d.1;
    same = λ b. contains-erase_oldest x b c.seen xs ds d (same b);
    bounded = omega arith;
  })
  | inr room ↦
      rw room
        (record { distinct_seen = ds; distinct = rw e d; same = rw e same; bounded = ground arith })
]

-- A cache whose set and queue hold the same nonces, each once and no more of them than the capacity,
-- is one after any nonce is offered, fresh or not.
pub offer-IsCache : (c : ReplayCache) (nonce : Bytes) → IsCache c → IsCache (offer c nonce).0
unfolding offer contains
offer-IsCache c nonce v = elim (Bool-cases (contains nonce c.seen)) [
  | inl old ↦ rw old (record {
    distinct_seen = v.distinct_seen;
    distinct = v.distinct;
    same = v.same;
    bounded = v.bounded;
  })
  | inr new ↦ rw new (
      evict-IsCache _ (c.order ++ nonce ∷ []) refl (new, v.distinct_seen)
        (AllDistinct-append c.order nonce v.distinct (sym (v.same nonce) ∙ new))
        (λ b. ground (arith, contains-append b c.order (nonce ∷ []), v.same b))
        (omega (arith, length-append c.order (nonce ∷ []), v.bounded)))
]

-- The nonce stands in the queue with at most `k` nonces behind it.
abbrev Within : Bytes → ℕ → ReplayCache → Type 0
Within nonce k c =
    (before : List Bytes) × (behind : List Bytes) × (c.order ≡ before ++ nonce ∷ behind)
    × (length behind ≤ k)

capacity-evict : (c : ReplayCache) (xs : List Bytes) → (evict c xs).capacity ≡ c.capacity
unfolding evict
capacity-evict c [] = refl
capacity-evict c (x ∷ xs) = ground arith

capacity-offer : (c : ReplayCache) (nonce : Bytes) → (offer c nonce).0.capacity ≡ c.capacity
unfolding offer
capacity-offer c nonce = elim (Bool-cases (contains nonce c.seen)) [
  | inl old ↦ rw old refl
  | inr new ↦ rw new (capacity-evict _ (c.order ++ nonce ∷ []))
]

evict-Within :
    (c : ReplayCache) (nonce : Bytes) (k : ℕ) (before behind : List Bytes)
    → c.order ≡ before ++ nonce ∷ behind
    → length behind ≤ k
    → k < c.capacity
    → Within nonce k (evict c (before ++ nonce ∷ behind))
unfolding evict
evict-Within c nonce k [] behind e le lt =
    let room : ltb c.capacity (length c.order) ≡ false = rw e (ground arith) in
    rw room ([], behind, e, le)
evict-Within c nonce k (x ∷ before) behind e le lt =
    elim (Bool-cases (ltb c.capacity (length c.order))) [
      | inl over ↦ rw over (before, behind, refl, le)
      | inr room ↦ rw room (x ∷ before, behind, e, le)
    ]

offer-Within :
    (c : ReplayCache) (nonce other : Bytes) (k : ℕ)
    → Within nonce k c
    → suc k < c.capacity
    → Within nonce (suc k) (offer c other).0
unfolding offer
offer-Within c nonce other k (before, behind, e, le) lt =
    elim (Bool-cases (contains other c.seen)) [
      | inl old ↦ rw old (before, behind, e, omega arith)
      | inr new ↦ rw new (
          let e' : c.order ++ other ∷ [] ≡ before ++ nonce ∷ (behind ++ other ∷ []) =
            rw e (append_assoc before (nonce ∷ behind) (other ∷ [])) in
          rw e' (
            evict-Within _ nonce (suc k) before (behind ++ other ∷ []) refl
              (omega (arith, length-append behind (other ∷ []))) lt))
    ]

-- The nonces of a list, offered one after the other.
pub offers : ReplayCache → List Bytes → ReplayCache
offers c [] = c
offers c (n ∷ ns) = offers (offer c n).0 ns

offers-Within :
    (c : ReplayCache) (nonce : Bytes) (k : ℕ) (ns : List Bytes)
    → Within nonce k c
    → k + length ns < c.capacity
    → Within nonce (k + length ns) (offers c ns)
unfolding offers
offers-Within c nonce k [] w lt = (w.0, w.1, w.2, omega arith)
offers-Within c nonce k (n ∷ ns) w lt =
    let rest =
      offers-Within (offer c n).0 nonce (suc k) ns (offer-Within c nonce n k w (omega arith))
        (omega (arith, capacity-offer c n)) in
    (rest.0, rest.1, rest.2, omega (arith, rest.3))

offers-IsCache : (c : ReplayCache) (ns : List Bytes) → IsCache c → IsCache (offers c ns)
unfolding offers
offers-IsCache c [] v = v
offers-IsCache c (n ∷ ns) v = offers-IsCache (offer c n).0 ns (offer-IsCache c n v)

offer_fresh-Within :
    (c : ReplayCache) (nonce : Bytes)
    → contains nonce c.seen ≡ false
    → 0 < c.capacity
    → Within nonce 0 (offer c nonce).0
unfolding offer
offer_fresh-Within c nonce new lt = rw new (evict-Within _ nonce 0 c.order [] refl (omega arith) lt)

Within-contains :
    (c : ReplayCache) (nonce : Bytes) (k : ℕ) → Within nonce k c → contains nonce c.order ≡ true
unfolding contains
Within-contains c nonce k (before, behind, e, le) =
    rw e (ground (arith, contains-append nonce before (nonce ∷ behind), bytes_eq_refl nonce))

-- A nonce that a consistent cache accepts is refused when it comes again, as long as fewer nonces than the capacity
-- were offered in between; the cache then counts a hit and is otherwise the same.
pub offer_replayed :
    (c : ReplayCache) (nonce : Bytes) (ns : List Bytes)
    → IsCache c
    → contains nonce c.seen ≡ false
    → length ns < c.capacity
    → let later = offers (offer c nonce).0 ns in
      offer later nonce ≡ (record later { hits = later.hits + 1 }, false)
unfolding offer
offer_replayed c nonce ns v new lt =
    let valid = offers-IsCache (offer c nonce).0 ns (offer-IsCache c nonce v) in
    let within =
      offers-Within (offer c nonce).0 nonce 0 ns (offer_fresh-Within c nonce new (omega arith))
        (omega (arith, capacity-offer c nonce)) in
    let held = valid.same nonce ∙ Within-contains (offers (offer c nonce).0 ns) nonce _ within in
    rw held refl

-- ===== src/Protocol/Replay.antt =====
-- Protocol.cc: the bounded replay cache and the freshness window.
pub mod Window
use uav_omnet.Base.{
  ℕ, ◌+◌, ◌-◌, Bool, true, false, List, [], ◌∷◌, ◌++◌, Bytes, bytes_eq, ltb, leb, if◌then◌else◌,
  length, ◌||◌,
}

-- `|now - message| <= window` on `uint32_t`.
unfoldable pub timestamp_fresh : ℕ → ℕ → ℕ → Bool
timestamp_fresh now_ms msg_ms window_ms =
    leb (if leb msg_ms now_ms then now_ms - msg_ms else msg_ms - now_ms) window_ms

-- `seen` is a `std::set` and holds each nonce once; `order` has the oldest nonce first.
pub record ReplayCache : Type 0 where
  pub capacity : ℕ
  pub hits : ℕ
  pub seen : List Bytes
  pub order : List Bytes

unfoldable pub contains : Bytes → List Bytes → Bool
contains b [] = false
contains b (x ∷ xs) = bytes_eq x b || contains b xs

unfoldable pub erase : Bytes → List Bytes → List Bytes
erase b [] = []
erase b (x ∷ xs) = if bytes_eq x b then xs else x ∷ erase b xs

-- Drops the oldest nonce of a cache with too many.
unfoldable pub evict : ReplayCache → List Bytes → ReplayCache
evict c [] = c
evict c (oldest ∷ rest) =
    if ltb c.capacity (length c.order)
    then record c { seen = erase oldest c.seen; order = rest }
    else c

-- The cache after a nonce, and whether the nonce is fresh.
unfoldable pub offer : ReplayCache → Bytes → ReplayCache × Bool
offer c nonce =
    if contains nonce c.seen
    then (record c { hits = c.hits + 1 }, false)
    else (let c' = record c { seen = nonce ∷ c.seen; order = c.order ++ nonce ∷ [] } in
        (evict c' c'.order, true))

unfoldable pub clear : ReplayCache → ReplayCache
clear c = record c { seen = []; order = []; hits = 0 }

-- A cache as it is constructed.
abbrev pub empty_cache : ℕ → ReplayCache
empty_cache capacity = record { capacity = capacity; hits = 0; seen = []; order = [] }

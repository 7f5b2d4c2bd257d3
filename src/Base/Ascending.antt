-- ===== src/Base/Ascending.antt =====
-- A `std::map<int, V>` has its keys in ascending order, and a sum over its entries.
use Prim.Native.Nat.{ℕ, ◌+◌, ◌≤◌}
use mathlib.Core.Path.{◌≡◌, refl}
use mathlib.Core.Logic.{inl, inr}
use mathlib.Core.Bool.{true, false}
use mathlib.Core.List.{[], ◌∷◌}
use mathlib.Core.Option.{none, some}
use native.Mathlib.Omega.{arith}
use uav_omnet.Base.Tests.{Bool-cases}
use uav_omnet.Base.Int.{ℤ, pos, negsuc, eq_ℤ, ltb_ℤ, eq_ℤ_iff}
use uav_omnet.Base.OrderedMap.{StdMap, lookup, insert}

ltb_ℤ_trans : (i j k : ℤ) → ltb_ℤ i j ≡ true → ltb_ℤ j k ≡ true → ltb_ℤ i k ≡ true
unfolding ltb_ℤ
ltb_ℤ_trans (pos i) (pos j) (pos k) g h = ground (arith, g, h)
ltb_ℤ_trans (pos i) (pos j) (negsuc k) g h = ground (arith, g, h)
ltb_ℤ_trans (pos i) (negsuc j) (pos k) g h = ground (arith, g, h)
ltb_ℤ_trans (pos i) (negsuc j) (negsuc k) g h = ground (arith, g, h)
ltb_ℤ_trans (negsuc i) (pos j) (pos k) g h = ground (arith, g, h)
ltb_ℤ_trans (negsuc i) (pos j) (negsuc k) g h = ground (arith, g, h)
ltb_ℤ_trans (negsuc i) (negsuc j) (pos k) g h = ground (arith, g, h)
ltb_ℤ_trans (negsuc i) (negsuc j) (negsuc k) g h = ground (arith, g, h)

ltb_ℤ_total : (i j : ℤ) → eq_ℤ i j ≡ false → ltb_ℤ j i ≡ false → ltb_ℤ i j ≡ true
unfolding ltb_ℤ eq_ℤ
ltb_ℤ_total (pos i) (pos j) g h = ground (arith, g, h)
ltb_ℤ_total (pos i) (negsuc j) g h = ground (arith, g, h)
ltb_ℤ_total (negsuc i) (pos j) g h = ground (arith, g, h)
ltb_ℤ_total (negsuc i) (negsuc j) g h = ground (arith, g, h)

ltb_ℤ_apart : (i j : ℤ) → ltb_ℤ i j ≡ true → eq_ℤ j i ≡ false
unfolding ltb_ℤ eq_ℤ
ltb_ℤ_apart (pos i) (pos j) g = ground (arith, g)
ltb_ℤ_apart (pos i) (negsuc j) g = ground (arith, g)
ltb_ℤ_apart (negsuc i) (pos j) g = ground (arith, g)
ltb_ℤ_apart (negsuc i) (negsuc j) g = ground (arith, g)

module _ {ℓ} {V : Type ℓ} where
  -- Every key lies above this one.
  abbrev Above : ℤ → StdMap V → Type 0
  Above k [] = Unit
  Above k ((j, v) ∷ m) = (ltb_ℤ k j ≡ true) × Above k m

  abbrev pub IsAscending : StdMap V → Type 0
  IsAscending [] = Unit
  IsAscending ((j, v) ∷ m) = Above j m × IsAscending m

  -- A weight summed over the entries.
  unfoldable pub total : (V → ℕ) → StdMap V → ℕ
  total weight [] = 0
  total weight ((j, v) ∷ m) = weight v + total weight m

  Above-below : (i k : ℤ) (m : StdMap V) → ltb_ℤ i k ≡ true → Above k m → Above i m
  Above-below i k [] h above = tt
  Above-below i k ((j, v) ∷ m) h (first, rest) =
      (ltb_ℤ_trans i k j h first, Above-below i k m h rest)

  insert-Above :
      (i k : ℤ) (v : V) (m : StdMap V) → ltb_ℤ i k ≡ true → Above i m → Above i (insert k v m)
  unfolding insert
  insert-Above i k v [] h above = (h, tt)
  insert-Above i k v ((j, w) ∷ m) h (first, rest) =
      ground (arith, h, first, rest, insert-Above i k v m h rest)

  pub insert-IsAscending :
      (k : ℤ) (v : V) (m : StdMap V) → IsAscending m → IsAscending (insert k v m)
  unfolding insert
  insert-IsAscending k v [] asc = (tt, tt)
  insert-IsAscending k v ((j, w) ∷ m) (above, asc) = elim (Bool-cases (eq_ℤ j k)) [
    | inl same ↦ ground (arith, same, eq_ℤ_iff j k, above, asc)
    | inr apart ↦ elim (Bool-cases (ltb_ℤ k j)) [
      | inl below ↦ ground (arith, apart, below, above, asc, Above-below k j m below above)
      | inr beyond ↦ ground (
        arith,
        apart,
        beyond,
        insert-Above j k v m (ltb_ℤ_total j k apart beyond) above,
        insert-IsAscending k v m asc,
      )
    ]
  ]

  lookup-Above : (k j : ℤ) (m : StdMap V) → ltb_ℤ k j ≡ true → Above j m → lookup k m ≡ none
  unfolding lookup
  lookup-Above k j [] h above = refl
  lookup-Above k j ((i, v) ∷ m) h (first, rest) =
      let below = ltb_ℤ_trans k j i h first in
      ground (arith, ltb_ℤ_apart k i below, lookup-Above k j m h rest)

  pub total-insert :
      (weight : V → ℕ) (k : ℤ) (v : V) (m : StdMap V)
      → total weight (insert k v m) ≤ weight v + total weight m
  unfolding total insert
  total-insert weight k v [] = ground arith
  total-insert weight k v ((j, w) ∷ m) = ground (arith, total-insert weight k v m)

  -- The new entry takes the place of the old one.
  pub total-insert_over :
      (weight : V → ℕ) (k : ℤ) (v w : V) (m : StdMap V)
      → IsAscending m
      → lookup k m ≡ some w
      → total weight (insert k v m) + weight w ≡ weight v + total weight m
  unfolding total insert lookup
  total-insert_over weight k v w [] asc h = absurd (ground (arith, h))
  total-insert_over weight k v w ((j, u) ∷ m) (above, asc) h = elim (Bool-cases (eq_ℤ j k)) [
    | inl same ↦ ground (arith, same, h)
    | inr apart ↦ elim (Bool-cases (ltb_ℤ k j)) [
      | inl below ↦ absurd (ground (arith, apart, h, lookup-Above k j m below above))
      | inr beyond ↦
          ground
            (arith, apart, beyond, total-insert_over weight k v w m asc (ground (arith, apart, h)))
    ]
  ]

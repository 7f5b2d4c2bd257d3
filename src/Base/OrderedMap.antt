-- ===== src/Base/OrderedMap.antt =====
-- `std::map<int, V>`: an association list in ascending order of its keys, which is the order in
-- which a range-based `for` visits the entries.
use mathlib.Core.Path.{◌≡◌, refl}
use mathlib.Core.List.{List, [], ◌∷◌}
use mathlib.Core.Option.{Option, none, some}
use native.Mathlib.Omega.{arith}
use uav_omnet.Base.Tests.{if◌then◌else◌}
use uav_omnet.Base.Int.{ℤ, eq_ℤ, ltb_ℤ, eq_ℤ_iff, eq_ℤ_refl}

abbrev pub StdMap {ℓ} : Type ℓ → Type ℓ
StdMap V = List (ℤ × V)

module _ {ℓ} {V : Type ℓ} where
  -- `find(k)`; `none` is `end()`.
  unfoldable pub lookup : ℤ → StdMap V → Option V
  lookup k [] = none
  lookup k ((j, v) ∷ m) = if eq_ℤ j k then some v else lookup k m

  -- `m[k] = v`.
  unfoldable pub insert : ℤ → V → StdMap V → StdMap V
  insert k v [] = (k, v) ∷ []
  insert k v ((j, w) ∷ m) =
      if eq_ℤ j k
      then (k, v) ∷ m
      else if ltb_ℤ k j
      then (k, v) ∷ (j, w) ∷ m
      else (j, w) ∷ insert k v m

  pub lookup-insert :
      (k j : ℤ) (v : V) (m : StdMap V)
      → lookup j (insert k v m) ≡ (if eq_ℤ k j then some v else lookup j m)
  unfolding lookup insert
  lookup-insert k j v [] = refl
  lookup-insert k j v ((i, w) ∷ m) =
      ground (arith, eq_ℤ_iff k j, eq_ℤ_iff i k, eq_ℤ_iff i j, lookup-insert k j v m)

  pub lookup-insert_self : (k : ℤ) (v : V) (m : StdMap V) → lookup k (insert k v m) ≡ some v
  lookup-insert_self k v m = simp (lookup-insert, eq_ℤ_refl)

-- ===== src/Fe/Bch/Roots.antt =====
-- fe/BchCodec.cc, the constructor's loop over the conjugates of a root.
use uav_omnet.Base.{
  ℕ, zero, suc, ◌+◌, ◌*◌, ◌%◌, ◌<◌, ◌≡◌, refl, none, some, Option-cases, inl, inr, List, [], ◌∷◌,
  arith,
}
use uav_omnet.Fe.Bch.{insert_root, close, conjugates_from}

insert_root-some :
    (c : ℕ) (roots more : List ℕ) → insert_root c roots ≡ some more → insert_root c more ≡ none
unfolding insert_root
insert_root-some c [] more h = ground arith
insert_root-some c (r ∷ roots) more h = elim (Option-cases (insert_root c roots)) [
  | inl e ↦ ground arith
  | inr (rest, e) ↦ (let again = insert_root-some c roots rest e in ground arith)
]

-- A root that is in the set stays in it.
insert_root-kept :
    (c d : ℕ) (roots more : List ℕ)
    → insert_root c roots ≡ none
    → insert_root d roots ≡ some more
    → insert_root c more ≡ none
unfolding insert_root
insert_root-kept c d [] more h k = absurd (ground arith)
insert_root-kept c d (r ∷ roots) more h k = elim (Option-cases (insert_root d roots)) [
  | inl e ↦ ground arith
  | inr (rest, e) ↦ (let again = insert_root-kept c d roots rest in ground (arith, again))
]

doubled : ℕ → ℕ → ℕ
doubled zero d = d
doubled (suc k) d = doubled k ((d * 2) % 255)

close_returns :
    (turns c d : ℕ) (roots : List ℕ)
    → insert_root c roots ≡ none
    → doubled turns d ≡ c
    → (more : List ℕ) × (close (suc turns) d roots ≡ some more)
unfolding close doubled
close_returns zero c d roots h same = (roots, ground arith)
close_returns (suc turns) c d roots h same = elim (Option-cases (insert_root d roots)) [
  | inl e ↦ (roots, ground (arith, e))
  | inr (next, e) ↦
      (let (more, runs) =
          close_returns turns c ((d * 2) % 255) next (insert_root-kept c d roots next h e) same in
        (more, ground (arith, e, runs)))
]

-- The loop over the conjugates of a root ends within nine turns.
close-total : (c : ℕ) (roots : List ℕ) → c < 255 → (more : List ℕ) × (close 9 c roots ≡ some more)
unfolding close doubled
close-total c roots h = elim (Option-cases (insert_root c roots)) [
  | inl e ↦ (roots, ground (arith, e))
  | inr (next, e) ↦
      (let back : doubled 7 ((c * 2) % 255) ≡ c = omega arith in
        let (more, runs) =
          close_returns 7 c ((c * 2) % 255) next (insert_root-some c roots next e) back in
        (more, ground (arith, e, runs)))
]

-- The constructor's search for the roots ends.
pub conjugates_from-total :
    (left i : ℕ) (roots : List ℕ) → (all : List ℕ) × (conjugates_from left i roots ≡ some all)
unfolding conjugates_from
conjugates_from-total zero i roots = (roots, refl)
conjugates_from-total (suc left) i roots =
    let (more, runs) = close-total (i % 255) roots (omega arith) in
    let (all, next) = conjugates_from-total left (i + 1) more in (all, ground (arith, runs, next))

-- ===== src/Crypto/Drbg/Uniform.antt =====
-- Drbg.cc, `uniform`: a number below a bound, by rejection of the draws that would favour some of them.
use uav_omnet.Base.{
  ℕ, zero, suc, ◌+◌, ◌-◌, ◌*◌, ◌/◌, ◌%◌, ◌<◌, ◌≡◌, ap, ◌∙◌, ◌↔◌, Option, none, some, Bytes, inl,
  inr, Option-cases, ltb, ◌==◌, if◌then◌else◌, get_or, arith,
}
use native.Mathlib.Nat.{
  div-lt_iff_lt-mul, mod-lt, div-add-mod', mod-eq_of_lt, add-mul-mod_self_right, add-mul-div_right,
  div-eq_of_lt,
}
use uav_omnet.Crypto.Drbg.{Drbg, bytes}

-- Draws from here on are rejected.
unfoldable pub limit_of : ℕ → ℕ
limit_of bound = 0xFFFFFFFF - 0xFFFFFFFF % bound

-- Four bytes, the highest first.
unfoldable pub word_of : Bytes → ℕ
word_of b = get_or b 0 0 * 0x1000000 + get_or b 1 0 * 0x10000 + get_or b 2 0 * 0x100 + get_or b 3 0

-- What a draw gives; `none` means that it is rejected.
unfoldable pub accepted : ℕ → ℕ → Option ℕ
accepted bound v = if ltb v (limit_of bound) then some (v % bound) else none

module _ (sha3_256 : Bytes → Bytes) where
  -- The loop on a number of draws, which nothing bounds in the source; `none` means that all were
  -- rejected.
  unfoldable pub draw_below : ℕ → ℕ → Drbg → Option (ℕ × Drbg)
  draw_below zero bound d = none
  draw_below (suc turns) bound d = elim (bytes sha3_256 4 d) [
    | none ↦ none
    | some (b, next) ↦ elim (accepted bound (word_of b)) [
      | none ↦ draw_below turns bound next
      | some v ↦ some (v, next)
    ]
  ]

  unfoldable pub uniform : ℕ → ℕ → Drbg → Option (ℕ × Drbg)
  uniform turns bound d = if bound == 0 then some (0, d) else draw_below turns bound d

limit_of_lem : (bound : ℕ) → limit_of bound ≡ 0xFFFFFFFF / bound * bound
unfolding limit_of
limit_of_lem bound = omega (arith, div-add-mod' 0xFFFFFFFF bound)

-- A draw is accepted with the result `r` exactly when it is `r` plus a multiple of the bound, out of
-- as many multiples for every result below the bound: no result is favoured.
pub accepted_iff :
    (bound v r : ℕ)
    → 0 < bound
    → (accepted bound v ≡ some r)
      ↔ ((r < bound) × (j : ℕ) × (j < 0xFFFFFFFF / bound) × (v ≡ r + j * bound))
unfolding accepted
accepted_iff bound v r h = (
  λ e.
      (let below : v < 0xFFFFFFFF / bound * bound = ground (arith, limit_of_lem bound) in
        let same : v % bound ≡ r = ground arith in
        (
          omega (arith, mod-lt v h, same),
          v / bound,
          (div-lt_iff_lt-mul h).1 below,
          omega (arith, div-add-mod' v bound, same),
        )),
  λ (r_below, j, j_below, e).
      (let same : v % bound ≡ r =
          ap (λ w. w % bound) e ∙ (add-mul-mod_self_right r j bound ∙ mod-eq_of_lt r_below) in
        let turn : v / bound ≡ j =
          omega (arith, ap (λ w. w / bound) e, add-mul-div_right r j h, div-eq_of_lt r_below) in
        let below : v < 0xFFFFFFFF / bound * bound =
          (div-lt_iff_lt-mul h).0 (omega (arith, turn, j_below)) in
        ground (arith, limit_of_lem bound)),
)

accepted-below : (bound v r : ℕ) → 0 < bound → accepted bound v ≡ some r → r < bound
accepted-below bound v r h e = ((accepted_iff bound v r h).0 e).0

module _ (sha3_256 : Bytes → Bytes) where
  draw_below-below :
      (turns bound : ℕ) (d next : Drbg) (v : ℕ)
      → 0 < bound
      → draw_below sha3_256 turns bound d ≡ some (v, next)
      → v < bound
  unfolding draw_below
  draw_below-below zero bound d next v h e = absurd (ground (arith, e))
  draw_below-below (suc turns) bound d next v h e = elim (Option-cases (bytes sha3_256 4 d)) [
    | inl f ↦ absurd (ground (arith, e, f))
    | inr ((b, after), f) ↦ elim (Option-cases (accepted bound (word_of b))) [
      | inl g ↦ draw_below-below turns bound after next v h (ground (arith, e, f, g))
      | inr (r, g) ↦
          (let below = accepted-below bound (word_of b) r h g in
            let same : r ≡ v = ground (arith, e, f, g) in omega (arith, below, same))
    ]
  ]

  -- What is returned is below the bound.
  pub uniform-below :
      (turns bound : ℕ) (d next : Drbg) (v : ℕ)
      → 0 < bound
      → uniform sha3_256 turns bound d ≡ some (v, next)
      → v < bound
  unfolding uniform
  uniform-below turns bound d next v h e =
      draw_below-below turns bound d next v h (ground (arith, e))

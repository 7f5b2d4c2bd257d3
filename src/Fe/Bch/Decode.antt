-- ===== src/Fe/Bch/Decode.antt =====
-- fe/BchCodec.cc: the syndromes, the Berlekamp-Massey iteration, the search for the error positions and
-- the decoder.
use Prim.Native.Nat.{bit_xor}
use uav_omnet.Base.{
  ℕ, zero, suc, ◌+◌, ◌-◌, ◌*◌, ◌%◌, Bool, true, false, not, ◌||◌, Option, none, some, List, [], ◌∷◌,
  ◌++◌, Bytes, is_empty, ◌==◌, ltb, leb, if◌then◌else◌, length, get_or, set, replicate,
}
use uav_omnet.Core.{CoreLib}
use uav_omnet.Fe.Bch.{Bch, gf_mul, gf_inv, gf_pow}

unfoldable pub all_zero : List ℕ → Bool
all_zero [] = true
all_zero (s ∷ rest) = if s == 0 then all_zero rest else false

-- The variables of the iteration.
pub record Massey : Type 0 where
  pub lambda : List ℕ
  pub prev : List ℕ
  pub l : ℕ
  pub m : ℕ
  pub b : ℕ

unfoldable pub massey_start : Massey
massey_start = record { lambda = 1 ∷ []; prev = 1 ∷ []; l = 0; m = 1; b = 1 }

-- `resize(size, 0)` of a shorter vector.
unfoldable pub widen : List ℕ → ℕ → List ℕ
widen v size = if ltb (length v) size then v ++ replicate (size - length v) 0 else v

module _ (c : Bch) where
  -- The first coefficients of `lambda` from `i` on, with the syndromes before `r`.
  unfoldable pub discrepancy_from : ℕ → ℕ → ℕ → List ℕ → List ℕ → ℕ → ℕ
  discrepancy_from zero i r lambda syn delta = delta
  discrepancy_from (suc left) i r lambda syn delta = discrepancy_from left (i + 1) r lambda syn (
      if leb i r
      then bit_xor delta (gf_mul c (get_or lambda i 0) (get_or syn (r - i) 0))
      else delta)

  -- The loop stops after `L`, and after the last coefficient.
  unfoldable pub turns_of : Massey → ℕ
  turns_of st = if leb (st.l + 1) (length st.lambda) then st.l else length st.lambda - 1

  unfoldable pub discrepancy : Massey → List ℕ → ℕ → ℕ
  discrepancy st syn r = discrepancy_from (turns_of st) 1 r st.lambda syn (get_or syn r 0)

  unfoldable pub add_from : ℕ → ℕ → List ℕ → List ℕ → List ℕ
  add_from coeff pos [] lambda = lambda
  add_from coeff pos (p ∷ prev) lambda =
      add_from coeff (pos + 1) prev
        (set lambda pos (bit_xor (get_or lambda pos 0) (gf_mul c coeff p)))

  unfoldable pub corrected_by : ℕ → Massey → List ℕ
  corrected_by coeff st = add_from coeff st.m st.prev (widen st.lambda (length st.prev + st.m))

  -- `none` is an exception.
  unfoldable pub massey_step : List ℕ → ℕ → Massey → Option Massey
  massey_step syn r st =
      let delta = discrepancy st syn r in
      if delta == 0 then some (record st { m = st.m + 1 }) else elim (gf_inv c st.b) [
        | none ↦ none
        | some inverse ↦
            (let lambda = corrected_by (gf_mul c delta inverse) st in
              if leb (2 * st.l) r
              then some
                  (record { lambda = lambda; prev = st.lambda; l = r + 1 - st.l; m = 1; b = delta })
              else some (record st { lambda = lambda; m = st.m + 1 }))
      ]

  unfoldable pub massey_from : ℕ → ℕ → List ℕ → Massey → Option Massey
  massey_from zero r syn st = some st
  massey_from (suc left) r syn st = elim (massey_step syn r st) [
    | none ↦ none
    | some next ↦ massey_from left (r + 1) syn next
  ]

  -- `lambda` at the inverse of the `i`-th power, from its coefficient `j` on.
  unfoldable pub evaluate_from : ℕ → ℕ → List ℕ → ℕ → ℕ
  evaluate_from i j [] sum = sum
  evaluate_from i j (coeff ∷ rest) sum = evaluate_from i (j + 1) rest (
      if coeff == 0
      then sum
      else bit_xor sum (gf_mul c coeff (get_or c.exp_table ((255 - (j * i) % 255) % 255) 0)))

  -- The test of the bit index holds for every `i` below `n`.
  unfoldable pub positions_from : ℕ → ℕ → List ℕ → List ℕ
  positions_from zero i lambda = []
  positions_from (suc left) i lambda =
      let rest = positions_from left (i + 1) lambda in
      if evaluate_from i 0 lambda 0 == 0 then (c.n - 1 - i) ∷ rest else rest

module _ (lib : CoreLib) (c : Bch) where
  open lib use {bytes_for_bits, get_bit, set_bit}

  -- A syndrome, from the bit `i` on.
  unfoldable pub syndrome_from : ℕ → ℕ → ℕ → Bytes → ℕ → ℕ
  syndrome_from zero i j word acc = acc
  syndrome_from (suc left) i j word acc = syndrome_from left (i + 1) j word (
      if get_bit word i
      then bit_xor acc (gf_pow c (get_or c.exp_table (j % 255) 0) (c.n - 1 - i))
      else acc)

  unfoldable pub syndromes_from : ℕ → ℕ → Bytes → List ℕ
  syndromes_from zero j word = []
  syndromes_from (suc left) j word = syndrome_from c.n 0 j word 0 ∷ syndromes_from left (j + 1) word

  unfoldable pub compute_syndromes : Bytes → List ℕ
  compute_syndromes word = syndromes_from (2 * c.t) 1 word

  unfoldable pub is_codeword : Bytes → Bool
  is_codeword word = all_zero (compute_syndromes word)

  unfoldable pub flip_all : List ℕ → Bytes → Bytes
  flip_all [] word = word
  flip_all (pos ∷ rest) word = flip_all rest (set_bit word pos (not (get_bit word pos)))

  -- The end of the decoder, from the polynomial on; `none` is the result false.
  unfoldable pub correct : Massey → Bytes → Option (Bytes × ℕ)
  correct st received =
      if ltb c.t st.l
      then none
      else (let positions = positions_from c c.n 0 st.lambda in
          if is_empty positions || not (length positions == st.l)
          then none
          else (let corrected = flip_all positions received in
              if is_codeword corrected then some (corrected, length positions) else none))

  -- The outer `none` is an exception, the inner one the result false.
  unfoldable pub decode_codeword : Bytes → Option (Option (Bytes × ℕ))
  decode_codeword received =
      if not (length received == bytes_for_bits c.n)
      then some none
      else (let syn = compute_syndromes received in
          if all_zero syn
          then some (some (received, 0))
          else elim (massey_from c (2 * c.t) 0 syn massey_start) [
            | none ↦ none
            | some st ↦ some (correct st received)
          ])

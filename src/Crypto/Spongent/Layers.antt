-- ===== src/Crypto/Spongent/Layers.antt =====
-- crypto/spongent/Spongent160.cc: the layers of the permutation.
use Prim.Native.Nat.{bit_or}
use uav_omnet.Base.{
  Bool-cases, inl, inr, ap, ◌≤◌, ℕ, zero, suc, ◌+◌, ◌*◌, ◌/◌, ◌%◌, ◌<◌, ◌≡◌, ◌≢◌, ◌^◌, ◌∙◌, set,
  get_or, refl, Bool, true, false, not, ltb, ◌||◌, ◌&&◌, [], ◌∷◌, Bytes, ◌==◌, if◌then◌else◌,
  length, replicate, length-set, length-take, length-replicate, arith,
}
use uav_omnet.Crypto.Spongent.{
  player_index, lfsr_next, row_from, table_row, xor_row, contributions, p_layer, spongent_round,
  rounds_from, permute,
}

-- The place that a bit came from.
abbrev pub came_from : ℕ → ℕ
came_from i = if i == 175 then 175 else (i * 4) % 175

-- The bit permutation is one: it stays among the 176 bits, and `came_from` is its inverse.
pub player_index_permutes :
    (i : ℕ)
    → i < 176
    → (player_index i < 176) × (came_from (player_index i) ≡ i) × (player_index (came_from i) ≡ i)
unfolding player_index
player_index_permutes i h = (ground arith, ground arith, ground arith)

length-either :
    (b : Bool) (xs ys : Bytes) (n : ℕ)
    → length xs ≡ n
    → length ys ≡ n
    → length (if b then xs else ys) ≡ n
length-either true xs ys n h k = h
length-either false xs ys n h k = k

length-row_from :
    (left bit byte_index value : ℕ) (row : Bytes)
    → length (row_from left bit byte_index value row) ≡ length row
unfolding row_from
length-row_from zero bit byte_index value row = refl
length-row_from (suc left) bit byte_index value row =
    let dst = player_index (byte_index * 8 + bit) in
    let written = set row (dst / 8) (bit_or (get_or row (dst / 8) 0) (2 ^ (dst % 8))) in
    length-row_from left (bit + 1) byte_index value
      (if value / 2 ^ bit % 2 == 0 then row else written)
    ∙ length-either (value / 2 ^ bit % 2 == 0) row written (length row) refl
        (length-set row (dst / 8) _)

length-xor_row : (a b : Bytes) → length a ≡ length b → length (xor_row a b) ≡ length a
unfolding xor_row
length-xor_row [] b h = refl
length-xor_row (x ∷ a) [] h = absurd (omega (arith, h))
length-xor_row (x ∷ a) (y ∷ b) h = omega (arith, length-xor_row a b (omega (arith, h)))

length-table_row : (byte_index value : ℕ) → length (table_row byte_index value) ≡ 24
unfolding table_row
length-table_row byte_index value =
    omega
      (arith, length-row_from 8 0 byte_index value (replicate 24 0), length-replicate {A = ℕ} 24 0)

length-contributions :
    (byte_index : ℕ) (state acc : Bytes)
    → length acc ≡ 24
    → length (contributions byte_index state acc) ≡ 24
unfolding contributions
length-contributions byte_index [] acc h = h
length-contributions byte_index (v ∷ rest) acc h =
    length-contributions (byte_index + 1) rest (xor_row acc (table_row byte_index v)) (
      omega (
        arith,
        h,
        length-xor_row acc (table_row byte_index v)
            (omega (arith, h, length-table_row byte_index v)),
      ))

pub length-p_layer : (state : Bytes) → length (p_layer state) ≡ 22
unfolding p_layer
length-p_layer state =
    length-take 22 (contributions 0 state (replicate 24 0))
      (omega (arith, length-contributions 0 state (replicate 24 0) (length-replicate {A = ℕ} 24 0)))

length-rounds_from :
    (left lfsr : ℕ) (state : Bytes) → length state ≡ 22 → length (rounds_from left lfsr state) ≡ 22
unfolding rounds_from spongent_round
length-rounds_from zero lfsr state h = h
length-rounds_from (suc left) lfsr state h =
    length-rounds_from left (lfsr_next lfsr) (spongent_round state lfsr) (length-p_layer _)

pub length-permute : (state : Bytes) → length state ≡ 22 → length (permute state) ≡ 22
unfolding permute
length-permute state h = length-rounds_from 90 0x45 state h

-- So many turns of the round constant.
unfoldable pub turned : ℕ → ℕ → ℕ
turned zero lfsr = lfsr
turned (suc n) lfsr = turned n (lfsr_next lfsr)

-- A test of every number from `i` on, `left` of them.
each : (ℕ → Bool) → ℕ → ℕ → Bool
each test i zero = true
each test i (suc left) = if test i then each test (suc i) left else false

each_sound :
    (test : ℕ → Bool) (left i k : ℕ)
    → each test i left ≡ true
    → i ≤ k
    → k < i + left
    → test k ≡ true
unfolding each
each_sound test zero i k passed low high = absurd (omega arith)
each_sound test (suc left) i k passed low high = elim (Bool-cases (k == i)) [
  | inl e ↦ (let same : k ≡ i = ground (arith, e) in ground (arith, ap test same))
  | inr e ↦ each_sound test left (suc i) k (ground arith) (ground (arith, e)) (omega arith)
]

-- A constant that is not zero stays so and below 128, and comes back after 127 turns and not before.
fine : ℕ → Bool
fine lfsr =
    lfsr == 0
    || (ltb 0 (lfsr_next lfsr)
        && ltb (lfsr_next lfsr) 128
        && turned 127 lfsr == lfsr
        && each (λ n. not (turned n lfsr == lfsr)) 1 126)

constants_table : each fine 0 128 ≡ true
unfolding each fine turned lfsr_next
constants_table = refl

-- The round constant never becomes zero, stays below 128, and from any start comes back after 127
-- turns and not before: no constant is met twice in one permutation.
pub lfsr_next-period :
    (lfsr : ℕ)
    → 0 < lfsr
    → lfsr < 128
    → (0 < lfsr_next lfsr)
      × (lfsr_next lfsr < 128)
      × (turned 127 lfsr ≡ lfsr)
      × ((n : ℕ) → 0 < n → n < 127 → turned n lfsr ≢ lfsr)
unfolding fine
lfsr_next-period lfsr positive small =
    let holds = each_sound fine 128 0 lfsr constants_table (omega arith) small in
    (
      ground (arith, holds),
      ground (arith, holds),
      ground (arith, holds),
      λ n above below back.
          let other =
            each_sound (λ n. not (turned n lfsr == lfsr)) 126 1 n (ground (arith, holds)) above
              (omega (arith, below)) in
          ground (arith, other, back),
    )

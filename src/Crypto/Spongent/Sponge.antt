-- ===== src/Crypto/Spongent/Sponge.antt =====
-- crypto/spongent/Spongent160.cc, `Spongent160::spongeAbsorbSqueeze` and `hash`.
use uav_omnet.Base.{
  ℕ, zero, suc, ◌+◌, ◌-◌, ◌/◌, ◌≤◌, ◌<◌, ◌≡◌, ◌∙◌, true, false, Option, none, some, [], ◌∷◌, ◌++◌,
  Bytes, ltb, if◌then◌else◌, length, take, drop, replicate, get_or, length-append, length-take,
  length-set, length-replicate, Bool-cases, inl, inr, arith,
}
use uav_omnet.Crypto.Spongent.{rate_bytes, state_bytes, add_at, permute}
use uav_omnet.Crypto.Spongent.Layers.{length-permute}

-- A block of two bytes is added to the front of the state.
unfoldable pub add_block : Bytes → ℕ → ℕ → Bytes
add_block state a b = add_at 1 b (add_at 0 a state)

-- As many full blocks as the input has, then the padded one: 0x80 after the last byte, and zeros.
unfoldable pub absorb : ℕ → Bytes → Bytes → Bytes
absorb zero input state =
    let tail = input ++ 0x80 ∷ replicate (rate_bytes - 1 - length input) 0 in
    permute (add_block state (get_or tail 0 0) (get_or tail 1 0))
absorb (suc n) input state =
    absorb n (drop rate_bytes input)
      (permute (add_block state (get_or input 0 0) (get_or input 1 0)))

unfoldable pub min_size : ℕ → ℕ → ℕ
min_size a b = if ltb b a then b else a

-- The loop over the output, on a number of turns.
unfoldable pub squeeze : ℕ → ℕ → Bytes → Bytes → Option Bytes
squeeze zero out_len state out = if ltb (length out) out_len then none else some out
squeeze (suc turns) out_len state out = elim (ltb (length out) out_len) [
  | false ↦ some out
  | true ↦
      (let out' = out ++ take (min_size rate_bytes (out_len - length out)) state in
        elim (ltb (length out') out_len) [
          | false ↦ some out'
          | true ↦ squeeze turns out_len (permute state) out'
        ])
]

unfoldable pub absorbed : Bytes → Bytes
absorbed input = absorb (length input / rate_bytes) input (replicate state_bytes 0)

-- A turn writes a byte at least.
unfoldable pub sponge_absorb_squeeze : Bytes → ℕ → Option Bytes
sponge_absorb_squeeze input out_len = squeeze out_len out_len (absorbed input) []

unfoldable pub hash : Bytes → Option Bytes
hash m = sponge_absorb_squeeze m 20

length-add_block : (state : Bytes) (a b : ℕ) → length (add_block state a b) ≡ length state
unfolding add_block add_at
length-add_block state a b = length-set (add_at 0 a state) 1 _ ∙ length-set state 0 _

length-absorb :
    (n : ℕ) (input state : Bytes) → length state ≡ 22 → length (absorb n input state) ≡ 22
unfolding absorb
length-absorb zero input state h =
    length-permute (add_block state _ _) (length-add_block state _ _ ∙ h)
length-absorb (suc n) input state h =
    length-absorb n (drop 2 input) (permute (add_block state _ _))
      (length-permute (add_block state _ _) (length-add_block state _ _ ∙ h))

length-absorbed : (input : Bytes) → length (absorbed input) ≡ 22
unfolding absorbed
length-absorbed input =
    length-absorb (length input / 2) input (replicate 22 0) (length-replicate {A = ℕ} 22 0)

squeeze-total :
    (turns out_len : ℕ) (state out : Bytes)
    → length state ≡ 22
    → length out ≤ out_len
    → out_len ≤ length out + turns
    → (all : Bytes) × (squeeze turns out_len state out ≡ some all) × (length all ≡ out_len)
unfolding squeeze min_size
squeeze-total zero out_len state out h fits near = (out, ground arith, omega arith)
squeeze-total (suc turns) out_len state out h fits near =
    let n = min_size 2 (out_len - length out) in
    let out' = out ++ take n state in
    let bound : n ≤ 2 = ground arith in
    let within : n ≤ out_len - length out = ground arith in
    let grows : (length out < out_len) → 0 < n = λ lt. ground arith in
    let size : length out' ≡ length out + n =
      omega
        (arith, length-append out (take n state), length-take n state (omega (arith, h, bound))) in
    elim (Bool-cases (ltb (length out) out_len)) [
      | inr e ↦ (out, ground arith, ground arith)
      | inl e ↦ elim (Bool-cases (ltb (length out') out_len)) [
        | inr f ↦ (out', ground (arith, size, within), ground (arith, size, within))
        | inl f ↦
            (let below : length out < out_len = ground arith in
              let (all, runs, exact) =
                squeeze-total turns out_len (permute state) out' (length-permute state h)
                  (omega (arith, size, within)) (omega (arith, size, grows below)) in
              (all, ground (arith, e, f, runs), exact))
      ]
    ]

-- The sponge returns as many bytes as are asked for, however many they are.
pub sponge_absorb_squeeze-total :
    (input : Bytes) (out_len : ℕ)
    → (out : Bytes) × (sponge_absorb_squeeze input out_len ≡ some out) × (length out ≡ out_len)
unfolding sponge_absorb_squeeze
sponge_absorb_squeeze-total input out_len =
    squeeze-total out_len out_len (absorbed input) [] (length-absorbed input) (omega arith)
      (omega arith)

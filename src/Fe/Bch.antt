-- ===== src/Fe/Bch.antt =====
-- fe/BchCodec.h and fe/BchCodec.cc: the BCH code of length 255, from its tables to the decoder. An
-- element of the field is a number below 256, and a polynomial the list of its coefficients, lowest
-- degree first.
pub mod Decode
pub mod Closed
pub mod Roots
pub mod Systematic
pub mod Extraction
use Prim.Native.Nat.{bit_xor}
use uav_omnet.Base.{
  ℕ, zero, suc, ◌+◌, ◌-◌, ◌*◌, ◌/◌, ◌%◌, Bool, true, false, not, ◌||◌, ◌&&◌, Option, none, some,
  List, [], ◌∷◌, Bytes, ◌==◌, ltb, leb, if◌then◌else◌, length, get_or, set, replicate, take, drop,
}
use uav_omnet.Core.{CoreLib}

-- The members of the class.
pub record Bch : Type 0 where
  pub t : ℕ
  pub n : ℕ
  pub k : ℕ
  pub parity_bits : ℕ
  pub prim_poly : ℕ
  pub exp_table : List ℕ
  pub log_table : List ℕ
  pub generator : List ℕ

-- The two tables as the loop over the powers fills them; `left` powers are to come.
unfoldable pub fill_tables : ℕ → ℕ → ℕ → ℕ → List ℕ → List ℕ → List ℕ × List ℕ
fill_tables zero i x poly exp log = (exp, log)
fill_tables (suc left) i x poly exp log =
    let doubled = x * 2 in
    let next = if doubled / 0x100 % 2 == 0 then doubled else bit_xor doubled poly in
    fill_tables left (i + 1) next poly (set exp i x) (set log x i)

-- `expTable_[i] = expTable_[i - 255]`.
unfoldable pub repeat_table : ℕ → ℕ → List ℕ → List ℕ
repeat_table zero i exp = exp
repeat_table (suc left) i exp = repeat_table left (i + 1) (set exp i (get_or exp (i - 255) 0))

-- `roots.insert(c)` of a `std::set<int>`; `none` where `c` is in it.
unfoldable pub insert_root : ℕ → List ℕ → Option (List ℕ)
insert_root c [] = some (c ∷ [])
insert_root c (r ∷ roots) =
    if c == r
    then none
    else if ltb c r
    then some (c ∷ r ∷ roots)
    else elim (insert_root c roots) [ none ↦ none | some rest ↦ some (r ∷ rest) ]

-- The loop over the conjugates of `c`, on a number of turns.
unfoldable pub close : ℕ → ℕ → List ℕ → Option (List ℕ)
close zero c roots = none
close (suc turns) c roots = elim (insert_root c roots) [
  | none ↦ some roots
  | some more ↦ close turns ((c * 2) % 255) more
]

-- Doubling comes back after eight turns, and the ninth finds the first root again.
unfoldable pub conjugates_from : ℕ → ℕ → List ℕ → Option (List ℕ)
conjugates_from zero i roots = some roots
conjugates_from (suc left) i roots = elim (close 9 (i % 255) roots) [
  | none ↦ none
  | some more ↦ conjugates_from left (i + 1) more
]

module _ (c : Bch) where
  open c use {exp_table, log_table}

  unfoldable pub gf_mul : ℕ → ℕ → ℕ
  gf_mul a b =
      if a == 0 || b == 0
      then 0
      else get_or exp_table (get_or log_table a 0 + get_or log_table b 0) 0

  -- `none` is an exception.
  unfoldable pub gf_inv : ℕ → Option ℕ
  gf_inv a = if a == 0 then none else some (get_or exp_table ((255 - get_or log_table a 0) % 255) 0)

  -- No exponent of the callers is negative.
  unfoldable pub gf_pow : ℕ → ℕ → ℕ
  gf_pow a e = if a == 0 then 0 else get_or exp_table ((get_or log_table a 0 * e) % 255) 0

  -- `g(x) * (x + ar)`, where `carry` is the coefficient before.
  unfoldable pub times_root : ℕ → ℕ → List ℕ → List ℕ
  times_root ar carry [] = carry ∷ []
  times_root ar carry (g ∷ rest) = bit_xor carry (gf_mul g ar) ∷ times_root ar g rest

  unfoldable pub product : List ℕ → List ℕ → List ℕ
  product [] g = g
  product (r ∷ roots) g = product roots (times_root (get_or exp_table r 0) 0 g)

unfoldable pub all_binary : List ℕ → Bool
all_binary [] = true
all_binary (g ∷ rest) = if ltb 1 g then false else all_binary rest

-- The code with its tables, before the generator is known.
unfoldable pub with_tables : ℕ → ℕ → Bch
with_tables t poly =
    let (exp, log) = fill_tables 255 0 1 poly (replicate 512 0) (replicate 256 0) in
    record {
      t = t;
      n = 255;
      k = 0;
      parity_bits = 0;
      prim_poly = poly;
      exp_table = repeat_table 257 255 exp;
      log_table = log;
      generator = [];
    }

-- `none` is an exception.
unfoldable pub construct : ℕ → ℕ → Option Bch
construct t poly = if ltb t 1 || ltb 30 t then none else elim (conjugates_from (2 * t) 1 []) [
  | none ↦ none
  | some roots ↦
      (let c = with_tables t poly in
        let g = product c roots (1 ∷ []) in
        let parity_bits = length g - 1 in
        if not (all_binary g)
        then none
        else if leb 255 parity_bits
        then none
        else some (record c { k = 255 - parity_bits; parity_bits = parity_bits; generator = g }))
]

-- `remainder[j] ^= generator_[j]` along the register.
unfoldable pub add_generator : List ℕ → List ℕ → List ℕ
add_generator [] g = []
add_generator (r ∷ rest) [] = r ∷ rest
add_generator (r ∷ rest) (g ∷ more) = bit_xor r g ∷ add_generator rest more

module _ (lib : CoreLib) (c : Bch) where
  open lib use {bytes_for_bits, get_bit, set_bit}
  open c use {n, k, parity_bits, generator}

  -- A turn of the register: it is multiplied by x, and reduced where its leading bit and the bit of
  -- the message differ.
  unfoldable pub shift_in : Bool → List ℕ → List ℕ
  shift_in bit remainder =
      let feedback = bit_xor (if bit then 1 else 0) (get_or remainder (parity_bits - 1) 0) in
      let shifted = 0 ∷ take (parity_bits - 1) remainder in
      if feedback == 0 then shifted else add_generator shifted generator

  unfoldable pub register_from : ℕ → ℕ → Bytes → List ℕ → List ℕ
  register_from zero i message remainder = remainder
  register_from (suc left) i message remainder =
      register_from left (i + 1) message (shift_in (get_bit message i) remainder)

  unfoldable pub pack_parity : ℕ → ℕ → List ℕ → Bytes → Bytes
  pack_parity zero p remainder parity = parity
  pack_parity (suc left) p remainder parity =
      pack_parity left (p + 1) remainder
        (set_bit parity p (not (get_or remainder (parity_bits - 1 - p) 0 == 0)))

  -- `none` is an exception.
  unfoldable pub encode_parity : Bytes → Option Bytes
  encode_parity message =
      if length message == bytes_for_bits k
      then some (
          pack_parity parity_bits 0 (register_from k 0 message (replicate parity_bits 0))
            (replicate (bytes_for_bits parity_bits) 0))
      else none

  -- The bits of `source` from the first on, written into `word` from the place `at` on.
  unfoldable pub copy_bits : ℕ → ℕ → ℕ → Bytes → Bytes → Bytes
  copy_bits zero i at source word = word
  copy_bits (suc left) i at source word =
      copy_bits left (i + 1) at source (set_bit word (at + i) (get_bit source i))

  unfoldable pub encode_codeword : Bytes → Option Bytes
  encode_codeword message = elim (encode_parity message) [
    | none ↦ none
    | some parity ↦ some (
        copy_bits parity_bits 0 k parity (copy_bits k 0 0 message (replicate (bytes_for_bits n) 0)))
  ]

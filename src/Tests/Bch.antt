-- ===== src/Tests/Bch.antt =====
-- The BCH code with one correctable error, computed; and the generator for two.
use uav_omnet.Base.{
  get_or-set, get_or-set_other, resize, Bool, get_or, set, ◌==◌, if◌then◌else◌, ap, ◌∙◌, length-set,
  arith, ◌+◌, ℕ, ◌≤◌, ◌<◌, ◌≡◌, ◌⊎◌, refl, true, false, Option, none, some, List, [], ◌∷◌, Bytes,
  length, replicate, take,
}
use uav_omnet.Fe.Bch.{
  Bch, fill_tables, repeat_table, insert_root, close, conjugates_from, gf_mul, gf_inv, gf_pow,
  times_root, product, all_binary, with_tables, construct, encode_parity, encode_codeword,
}
use uav_omnet.Fe.Bch.Decode.{
  all_zero, massey_start, widen, discrepancy_from, turns_of, discrepancy, add_from, corrected_by,
  massey_step, massey_from, evaluate_from, positions_from, syndrome_from, syndromes_from,
  compute_syndromes, is_codeword, flip_all, correct, decode_codeword,
}
use uav_omnet.Fe.Bch.Closed.{decode_codeword-total, decode_codeword_closed}
use uav_omnet.Fe.Bch.Systematic.{IsBits, encode_codeword-systematic}
use uav_omnet.Core.{CoreLib}
use uav_omnet.Fe.Bch.Extraction.{decoded, as_codec, IsCorrected, rep_corrects}
use uav_omnet.Fe.Params.{FeParams, HelperData, RepResult, default_params}
use uav_omnet.Fe.Block.{extract_block, write_bits}
use uav_omnet.Fe.Extractor.{rep, rep_blocks, rep_outer, rep_fits, key_from, required_puf_bits}
use uav_omnet.Tests.Toy.{core, suite, get_bit, set_bit, xor_bytes, flip, sum, mac}

abbrev or_none : Option Bch → Bch
or_none none = with_tables 1 0x11D
or_none (some c) = c

abbrev generator_of : Option Bch → List ℕ
generator_of none = []
generator_of (some c) = c.generator

-- x^16 + x^14 + x^13 + x^11 + x^10 + x^9 + x^8 + x^6 + x^5 + x + 1.
record Generators : Type 0 where
  for_two :
      generator_of (construct 2 0x11D)
      ≡ 1 ∷ 1 ∷ 0 ∷ 0 ∷ 0 ∷ 1 ∷ 1 ∷ 0 ∷ 1 ∷ 1 ∷ 1 ∷ 1 ∷ 0 ∷ 1 ∷ 1 ∷ 0 ∷ 1 ∷ []
  too_many : construct 31 0x11D ≡ none

generators : Generators
unfolding fill_tables repeat_table insert_root close conjugates_from gf_mul times_root product
    all_binary with_tables construct replicate
generators = record { for_two = refl; too_many = refl }

abbrev code : Bch
code = or_none (construct 1 0x11D)

-- The zero word, and a word with its second bit set.
abbrev clean : Bytes
clean = replicate 32 0

abbrev noisy : Bytes
noisy = 64 ∷ replicate 31 0

record Runs : Type 0 where
  decodes : decode_codeword core code noisy ≡ some (some (clean, 1))
  zero_word : is_codeword core code clean ≡ true

runs : Runs
unfolding fill_tables repeat_table insert_root close conjugates_from gf_mul gf_inv gf_pow times_root
    product all_binary with_tables construct all_zero massey_start widen discrepancy_from turns_of
    discrepancy add_from corrected_by massey_step massey_from evaluate_from positions_from
    syndrome_from syndromes_from compute_syndromes is_codeword flip_all correct decode_codeword
    get_bit set_bit replicate
runs = record { decodes = refl; zero_word = refl }

decode_codeword-total_example :
    (result : Option (Bytes × ℕ)) × (decode_codeword core code noisy ≡ some result)
decode_codeword-total_example = decode_codeword-total core code noisy

decode_codeword_closed_example :
    (is_codeword core code clean ≡ true)
    × (length noisy ≡ core.bytes_for_bits code.n)
    × (((clean ≡ noisy) × (◌≡◌ {A = ℕ} 1 0))
        ⊎ ((positions : List ℕ) × (clean ≡ flip_all core code positions noisy)
            × (length positions ≡ 1)
            × (0 < 1)
            × (1 ≤ code.t)))
decode_codeword_closed_example = decode_codeword_closed core code noisy clean 1 runs.decodes

-- One block of noisy bits, and the sketch of the zero word.
abbrev params : FeParams
params = record default_params {
  block_bits = 255;
  num_blocks = 1;
  rep_factor = 1;
  key_bits = 32;
  seed_bytes = 2;
}

abbrev helper : HelperData
helper = record { sketch = clean ∷ []; rep_offsets = []; seed = 3 ∷ 4 ∷ []; params = params }

abbrev or_refused : Option RepResult → RepResult
or_refused none = record { mk = []; ok = false }
or_refused (some r) = r

abbrev reproduced : RepResult
reproduced = or_refused (rep core suite (as_codec core code) params noisy helper)

record Reproduces : Type 0 where
  reproduces : rep core suite (as_codec core code) params noisy helper ≡ some reproduced
  with_key : reproduced.ok ≡ true

reproduction : Reproduces
unfolding fill_tables repeat_table insert_root close conjugates_from gf_mul gf_inv gf_pow times_root
    product all_binary with_tables construct all_zero massey_start widen discrepancy_from turns_of
    discrepancy add_from corrected_by massey_step massey_from evaluate_from positions_from
    syndrome_from syndromes_from compute_syndromes is_codeword flip_all correct decode_codeword
    get_bit set_bit replicate decoded rep rep_blocks rep_outer rep_fits key_from extract_block
    write_bits required_puf_bits xor_bytes flip sum mac take resize
reproduction = record { reproduces = refl; with_key = refl }

rep_corrects_example :
    ((reproduced.ok ≡ false) × (reproduced.mk ≡ []))
    ⊎ ((reproduced.ok ≡ true)
        × (length helper.sketch ≡ params.num_blocks)
        × ((b : ℕ)
            → b < params.num_blocks
            → IsCorrected core suite code params
                (rep_outer core suite (as_codec core code) params noisy helper.rep_offsets)
                helper.sketch
                b))
rep_corrects_example =
    rep_corrects core suite code params noisy helper reproduced reproduction.reproduces

-- The operations on bits with a bit in each byte.
abbrev unpacked : CoreLib
unpacked = record core {
  bytes_for_bits = λ bits. bits;
  get_bit = λ b i. get_or b i 0 == 1;
  set_bit = λ b i v. set b i (if v then 1 else 0);
}

one_bit : (v : Bool) → (if v then 1 else 0) == 1 ≡ v
one_bit true = refl
one_bit false = refl

unpacked-IsBits : IsBits unpacked
unpacked-IsBits = record {
  get_bit-set_bit = λ b size i v room below.
      ap (λ x. x == 1) (get_or-set b i (if v then 1 else 0) 0 (omega (arith, room, below)))
      ∙ one_bit v;
  get_bit-set_bit_other =
      λ b i j v h. ap (λ x. x == 1) (get_or-set_other b i j (if v then 1 else 0) 0 h);
  length-set_bit = λ b i v. length-set b i (if v then 1 else 0);
}

abbrev message : Bytes
message = 1 ∷ replicate 246 0

record Constructs : Type 0 where
  made : construct 1 0x11D ≡ some code
  size : length message ≡ unpacked.bytes_for_bits code.k

constructs : Constructs
unfolding fill_tables repeat_table insert_root close conjugates_from gf_mul times_root product
    all_binary with_tables construct replicate
constructs = record { made = refl; size = refl }

encode_codeword-systematic_example :
    (word : Bytes) × (parity : Bytes) × (encode_codeword unpacked code message ≡ some word)
    × (encode_parity unpacked code message ≡ some parity)
    × (length word ≡ unpacked.bytes_for_bits code.n)
    × ((i : ℕ) → i < code.k → unpacked.get_bit word i ≡ unpacked.get_bit message i)
    × ((i : ℕ)
        → i < code.parity_bits
        → unpacked.get_bit word (code.k + i) ≡ unpacked.get_bit parity i)
encode_codeword-systematic_example =
    encode_codeword-systematic unpacked code unpacked-IsBits 1 0x11D message constructs.made
      constructs.size

-- ===== src/Tests/Extractor.antt =====
-- The fuzzy extractor over two blocks' worth of bits with one bit of noise, with a codec for them.
use uav_omnet.Base.{
  resize, ℕ, zero, suc, ◌<◌, ◌≡◌, ◌⊎◌, ◌/◌, refl, true, false, Option, none, some, List, [], ◌∷◌,
  Bytes, bytes_eq, if◌then◌else◌, length, replicate, take, arith,
}
use uav_omnet.Fe.Params.{FeParams, GenResult, default_params}
use uav_omnet.Fe.Codec.{BchCodec}
use uav_omnet.Fe.Block.{write_bits, extract_block}
use uav_omnet.Fe.Extractor.{
  required_puf_bits, message_for, gen_blocks, key_from, gen_offsets, gen_outer, gen, rep_blocks,
  rep_outer, rep_fits, rep,
}
use uav_omnet.Fe.Reproduce.{IsXor, Correctable, rep-gen, rep_lem, HasBlock, joined}
use uav_omnet.Tests.Toy.{
  core, suite, sum, mac, get_bit, set_bit, length-set_bit, flip, xor_bytes, xor_bytes_cancel,
  length-xor_bytes,
}

-- One codeword, 1 1; a word decodes to it if it is the one of the test.
abbrev codec : BchCodec
codec = record {
  n = 16;
  k = 8;
  encode_codeword = λ message. some (1 ∷ 1 ∷ []);
  decode_codeword = λ word. if bytes_eq word (171 ∷ 84 ∷ []) then some (1 ∷ 1 ∷ [], 1) else none;
}

abbrev params : FeParams
params = record default_params { block_bits = 16; num_blocks = 1; key_bits = 32; seed_bytes = 2 }

core-IsXor : IsXor core
core-IsXor = record { cancel = xor_bytes_cancel; length-xor_bytes = length-xor_bytes }

abbrev response : Bytes
response = 170 ∷ 85 ∷ []

abbrev noisy : Bytes
noisy = 170 ∷ 84 ∷ []

abbrev seed : Bytes
seed = 3 ∷ 4 ∷ []

abbrev gen_result : Option GenResult → GenResult
gen_result none = record {
  helper = record { sketch = []; rep_offsets = []; seed = []; params = params };
  mk = [];
  ok = false;
}
gen_result (some result) = result

abbrev result : GenResult
result = gen_result (gen core suite codec params response seed)

record Enrols : Type 0 where
  generates : gen core suite codec params response seed ≡ some result
  sized : length noisy ≡ core.bytes_for_bits (required_puf_bits core suite codec params)
  sketched : xor_bytes (extract_block core response 0 16) (1 ∷ 1 ∷ []) ≡ some (171 ∷ 84 ∷ [])
  taken_off : xor_bytes (extract_block core noisy 0 16) (171 ∷ 84 ∷ []) ≡ some (171 ∷ 84 ∷ [])
  reproduces :
      rep core suite codec params noisy result.helper ≡ some (record { mk = result.mk; ok = true })
  fails : rep core suite codec params [] result.helper ≡ some (record { mk = []; ok = false })

enrols : Enrols
unfolding required_puf_bits message_for gen_blocks resize key_from gen_offsets gen_outer gen
    rep_blocks rep_outer rep_fits rep write_bits extract_block sum mac get_bit set_bit flip
    xor_bytes replicate take bytes_eq
enrols = record {
  generates = refl;
  sized = refl;
  sketched = refl;
  taken_off = refl;
  reproduces = refl;
  fails = refl;
}

corrects :
    (i : ℕ)
    → i < params.num_blocks
    → Correctable core suite codec params
        (gen_outer core suite codec params response)
        (rep_outer core suite codec params noisy result.helper.rep_offsets)
        seed
        i
unfolding gen_outer rep_outer bytes_eq
corrects zero lt codeword offset encodes offsets =
    let one_word : codeword ≡ 1 ∷ 1 ∷ [] = ground arith in
    let sketch : offset ≡ 171 ∷ 84 ∷ [] = ground (arith, enrols.sketched) in
    (171 ∷ 84 ∷ [], 1, rw sketch enrols.taken_off, rw one_word refl)
corrects (suc i) lt codeword offset encodes offsets = absurd (omega arith)

rep-gen_example :
    rep core suite codec params noisy result.helper ≡ some (record { mk = result.mk; ok = true })
rep-gen_example =
    rep-gen core suite codec params length-set_bit core-IsXor response noisy seed result
      enrols.generates enrols.sized corrects

rep_lem_example :
    ((true ≡ false) × (result.mk ≡ []))
    ⊎ ((blocks : List Bytes) × (true ≡ true)
        × (length result.helper.sketch ≡ params.num_blocks)
        × (length blocks ≡ params.num_blocks)
        × ((i : ℕ)
            → i < params.num_blocks
            → HasBlock core suite codec params
                (rep_outer core suite codec params noisy result.helper.rep_offsets)
                i
                result.helper.sketch
                blocks
                i)
        × (result.mk ≡ key_from core suite codec params result.helper.seed (joined blocks))
        × (length result.mk ≡ params.key_bits / 8))
rep_lem_example =
    rep_lem core suite codec params noisy result.helper (record { mk = result.mk; ok = true })
      enrols.reproduces

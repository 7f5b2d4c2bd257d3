-- ===== src/Crypto/Ascon/Range.antt =====
-- crypto/ascon/Ascon128a.cc: the range of the words of a state.
use Prim.Native.Nat.{bit_xor}
use uav_omnet.Base.{
  Bool, true, false, is_empty, if◌then◌else◌, ℕ, zero, suc, ◌-◌, ◌/◌, ◌<◌, List, [], ◌∷◌, Bytes,
  length, take, drop, arith,
}
use uav_omnet.Crypto.Ascon.{
  AsconState, word, iv, round_constants, load64be, mix, chi, unmix, diffuse, ascon_round,
  rounds_with, permute, initialise, add_block, absorb_blocks, absorb_associated_data, padded,
}
use uav_omnet.Crypto.Ascon.Words.{xor-lt_word, and-lt_word, rotr-lt, inverted-lt, load64be-lt}

pub record IsState (s : AsconState) : Type 0 where
  pub x0 : s.x0 < word
  pub x1 : s.x1 < word
  pub x2 : s.x2 < word
  pub x3 : s.x3 < word
  pub x4 : s.x4 < word

ruleset ranges = (xor-lt_word, and-lt_word, rotr-lt, inverted-lt, load64be-lt)

mix-IsState : (s : AsconState) → IsState s → IsState (mix s)
unfolding mix
mix-IsState s v = record {
  x0 = search (ranges, v.x0, v.x4);
  x1 = v.x1;
  x2 = search (ranges, v.x1, v.x2);
  x3 = v.x3;
  x4 = search (ranges, v.x3, v.x4);
}

chi-IsState : (s : AsconState) → IsState s → IsState (chi s)
unfolding chi
chi-IsState s v = record {
  x0 = search (ranges, v.x0);
  x1 = search (ranges, v.x1);
  x2 = search (ranges, v.x2);
  x3 = search (ranges, v.x3);
  x4 = search (ranges, v.x4);
}

unmix-IsState : (s : AsconState) → IsState s → IsState (unmix s)
unfolding unmix
unmix-IsState s v = record {
  x0 = search (ranges, v.x0, v.x4);
  x1 = search (ranges, v.x0, v.x1);
  x2 = search ranges;
  x3 = search (ranges, v.x2, v.x3);
  x4 = v.x4;
}

diffuse-IsState : (s : AsconState) → IsState s → IsState (diffuse s)
unfolding diffuse
diffuse-IsState s v = record {
  x0 = search (ranges, v.x0);
  x1 = search (ranges, v.x1);
  x2 = search (ranges, v.x2);
  x3 = search (ranges, v.x3);
  x4 = search (ranges, v.x4);
}

ascon_round-IsState : (s : AsconState) (c : ℕ) → c < word → IsState s → IsState (ascon_round s c)
unfolding ascon_round
ascon_round-IsState s c h v =
    let added = record s { x2 = bit_xor s.x2 c } in
    diffuse-IsState (unmix (chi (mix added))) (
      unmix-IsState (chi (mix added)) (
        chi-IsState (mix added) (
          mix-IsState added (record {
            x0 = v.x0;
            x1 = v.x1;
            x2 = search (ranges, h, v.x2);
            x3 = v.x3;
            x4 = v.x4;
          }))))

AllWords : List ℕ → Type 0
AllWords [] = Unit
AllWords (c ∷ rest) = (c < word) × AllWords rest

drop-AllWords : (n : ℕ) (xs : List ℕ) → AllWords xs → AllWords (drop n xs)
unfolding drop AllWords
drop-AllWords zero xs h = h
drop-AllWords (suc n) [] h = h
drop-AllWords (suc n) (x ∷ xs) h = drop-AllWords n xs h.1

round_constants_small : AllWords round_constants
unfolding AllWords
round_constants_small = ground arith

rounds_with-IsState :
    (constants : List ℕ) (s : AsconState)
    → AllWords constants
    → IsState s
    → IsState (rounds_with constants s)
unfolding rounds_with AllWords
rounds_with-IsState [] s small v = v
rounds_with-IsState (c ∷ rest) s (h, small) v =
    rounds_with-IsState rest (ascon_round s c) small (ascon_round-IsState s c h v)

pub permute-IsState : (s : AsconState) (rounds : ℕ) → IsState s → IsState (permute s rounds)
unfolding permute
permute-IsState s rounds v =
    rounds_with-IsState (drop (12 - rounds) round_constants) s
      (drop-AllWords (12 - rounds) round_constants round_constants_small) v

pub initialise-IsState : (key nonce : Bytes) → IsState (initialise key nonce)
unfolding initialise
initialise-IsState key nonce =
    let s : AsconState = record {
      x0 = iv;
      x1 = load64be key;
      x2 = load64be (drop 8 key);
      x3 = load64be nonce;
      x4 = load64be (drop 8 nonce);
    } in
    let v = permute-IsState s 12 (record {
      x0 = omega arith;
      x1 = search ranges;
      x2 = search ranges;
      x3 = search ranges;
      x4 = search ranges;
    }) in
    record {
      x0 = v.x0;
      x1 = v.x1;
      x2 = v.x2;
      x3 = search (ranges, v.x3);
      x4 = search (ranges, v.x4);
    }

pub add_block-IsState : (s : AsconState) (block : Bytes) → IsState s → IsState (add_block s block)
unfolding add_block
add_block-IsState s block v = record {
  x0 = search (ranges, v.x0);
  x1 = search (ranges, v.x1);
  x2 = v.x2;
  x3 = v.x3;
  x4 = v.x4;
}

absorb_blocks-IsState :
    (n : ℕ) (s : AsconState) (ad : Bytes) → IsState s → IsState (absorb_blocks n s ad)
unfolding absorb_blocks
absorb_blocks-IsState zero s ad v =
    permute-IsState (add_block s (padded ad)) 8 (add_block-IsState s (padded ad) v)
absorb_blocks-IsState (suc n) s ad v =
    absorb_blocks-IsState n (permute (add_block s (take 16 ad)) 8) (drop 16 ad)
      (permute-IsState (add_block s (take 16 ad)) 8 (add_block-IsState s (take 16 ad) v))

either-IsState :
    (b : Bool) (s t : AsconState) → IsState s → IsState t → IsState (if b then s else t)
either-IsState true s t v w = v
either-IsState false s t v w = w

pub absorb_associated_data-IsState :
    (s : AsconState) (ad : Bytes) → IsState s → IsState (absorb_associated_data s ad)
unfolding absorb_associated_data
absorb_associated_data-IsState s ad v =
    let w =
      either-IsState (is_empty ad) s (absorb_blocks (length ad / 16) s ad) v
        (absorb_blocks-IsState (length ad / 16) s ad v) in
    record { x0 = w.x0; x1 = w.x1; x2 = w.x2; x3 = w.x3; x4 = xor-lt_word _ 1 w.x4 (omega arith) }

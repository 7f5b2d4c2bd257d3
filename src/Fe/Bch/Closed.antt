-- ===== src/Fe/Bch/Closed.antt =====
-- fe/BchCodec.cc: the decoder fails closed.
use uav_omnet.Base.{
  ℕ, zero, suc, ◌+◌, ◌*◌, ◌≤◌, ◌<◌, ◌≡◌, ◌≢◌, ◌⊎◌, inl, inr, refl, is_empty, Bool-cases, true,
  false, Option, some, List, [], ◌∷◌, Bytes, length, Option-cases, arith,
}
use uav_omnet.Core.{CoreLib}
use uav_omnet.Fe.Bch.{Bch, gf_inv}
use uav_omnet.Fe.Bch.Decode.{
  Massey, massey_start, massey_step, massey_from, positions_from, is_codeword, compute_syndromes,
  all_zero, flip_all, correct, decode_codeword,
}

starts : massey_start.b ≢ 0
unfolding massey_start
starts z = absurd (omega (arith, z))

module _ (c : Bch) where
  -- The last discrepancy that counted is not zero, so that it has an inverse.
  massey_step-total :
      (syn : List ℕ) (r : ℕ) (st : Massey)
      → st.b ≢ 0
      → (next : Massey) × (massey_step c syn r st ≡ some next) × (next.b ≢ 0)
  unfolding massey_step gf_inv
  massey_step-total syn r st h = elim (Option-cases (massey_step c syn r st)) [
    | inl e ↦ absurd (ground (arith, h))
    | inr (next, e) ↦ (next, e, λ z. absurd (ground (arith, h)))
  ]

  massey_from-total :
      (left r : ℕ) (syn : List ℕ) (st : Massey)
      → st.b ≢ 0
      → (end : Massey) × (massey_from c left r syn st ≡ some end)
  unfolding massey_from
  massey_from-total zero r syn st h = (st, refl)
  massey_from-total (suc left) r syn st h =
      let (next, runs, again) = massey_step-total syn r st h in
      let (end, more) = massey_from-total left (r + 1) syn next again in
      (end, ground (arith, runs, more))

some_position : (positions : List ℕ) → is_empty positions ≡ false → 0 < length positions
some_position [] h = absurd (ground arith)
some_position (p ∷ positions) h = omega arith

module _ (lib : CoreLib) (c : Bch) where
  -- The decoder ends without an exception on every word: no zero is inverted on the way.
  pub decode_codeword-total :
      (received : Bytes)
      → (result : Option (Bytes × ℕ)) × (decode_codeword lib c received ≡ some result)
  unfolding decode_codeword
  decode_codeword-total received =
      let (end, runs) =
        massey_from-total c (2 * c.t) 0 (compute_syndromes lib c received) massey_start starts in
      elim (Option-cases (decode_codeword lib c received)) [
        | inl e ↦ absurd (ground (arith, runs))
        | inr (result, e) ↦ (result, e)
      ]

  -- The decoder succeeds only with a word all of whose syndromes are zero, and within the errors that
  -- the code corrects: either the received word is one, and it comes back, or as many positions as
  -- are reported, one at least and no more than `t`, were flipped.
  pub decode_codeword_closed :
      (received corrected : Bytes) (errors : ℕ)
      → decode_codeword lib c received ≡ some (some (corrected, errors))
      → (is_codeword lib c corrected ≡ true)
        × (length received ≡ lib.bytes_for_bits c.n)
        × (((corrected ≡ received) × (errors ≡ 0))
            ⊎ ((positions : List ℕ) × (corrected ≡ flip_all lib c positions received)
                × (length positions ≡ errors)
                × (0 < errors)
                × (errors ≤ c.t)))
  unfolding decode_codeword is_codeword correct
  decode_codeword_closed received corrected errors h =
      let (end, runs) =
        massey_from-total c (2 * c.t) 0 (compute_syndromes lib c received) massey_start starts in
      let positions = positions_from c c.n 0 end.lambda in
      elim (Bool-cases (all_zero (compute_syndromes lib c received))) [
        | inl clean ↦ (ground arith, ground arith, inl (ground arith, ground arith))
        | inr dirty ↦ (
          ground (arith, runs),
          ground (arith, runs),
          inr (
            positions,
            ground (arith, runs),
            ground (arith, runs),
            ground (arith, runs, some_position positions),
            ground (arith, runs),
          ),
        )
      ]

  -- A codeword is decoded to itself, with no error.
  pub decode_codeword-codeword :
      (word : Bytes)
      → length word ≡ lib.bytes_for_bits c.n
      → is_codeword lib c word ≡ true
      → decode_codeword lib c word ≡ some (some (word, 0))
  unfolding decode_codeword is_codeword
  decode_codeword-codeword word size clean = ground arith

-- ===== src/Crypto/Ascon/Cipher.antt =====
-- crypto/ascon/Ascon128a.cc, `ascon128aEncrypt` and `ascon128aDecrypt`.
use Prim.Native.Nat.{bit_xor}
use uav_omnet.Base.{
  ℕ, zero, suc, ◌-◌, ◌/◌, Option, none, some, [], ◌∷◌, ◌++◌, ◌&&◌, Bytes, bytes_eq, ◌==◌, ltb,
  if◌then◌else◌, length, take, drop, get_or,
}
use uav_omnet.Crypto.Ascon.{
  AsconState, key_bytes, nonce_bytes, tag_bytes, rate_bytes, load64be, store64be, permute,
  initialise, absorb_associated_data, add_block, padded, finalise, rounds_b,
}

-- The first two words as bytes.
unfoldable pub rate_of : AsconState → Bytes
rate_of s = store64be s.x0 ++ store64be s.x1

-- What the loop over the full blocks leaves: the output, the state and the data that remain.
pub record Blocks : Type 0 where
  pub out : Bytes
  pub state : AsconState
  pub remaining : Bytes

unfoldable pub encrypt_blocks : ℕ → AsconState → Bytes → Blocks
encrypt_blocks zero s pt = record { out = []; state = s; remaining = pt }
encrypt_blocks (suc n) s pt =
    let s' = add_block s (take rate_bytes pt) in
    let rest = encrypt_blocks n (permute s' rounds_b) (drop rate_bytes pt) in
    record rest { out = rate_of s' ++ rest.out }

-- The rate is replaced by the ciphertext.
unfoldable pub replace_rate : AsconState → Bytes → AsconState
replace_rate s ct = record s { x0 = load64be ct; x1 = load64be (drop 8 ct) }

unfoldable pub decrypt_blocks : ℕ → AsconState → Bytes → Blocks
decrypt_blocks zero s ct = record { out = []; state = s; remaining = ct }
decrypt_blocks (suc n) s ct =
    let s' = replace_rate s ct in
    let block = store64be (bit_xor s.x0 s'.x0) ++ store64be (bit_xor s.x1 s'.x1) in
    let rest = decrypt_blocks n (permute s' rounds_b) (drop rate_bytes ct) in
    record rest { out = block ++ rest.out }

-- Byte by byte, as far as the shorter goes.
unfoldable pub xor_each : Bytes → Bytes → Bytes
xor_each [] b = []
xor_each (x ∷ a) [] = []
xor_each (x ∷ a) (y ∷ b) = bit_xor x y ∷ xor_each a b

-- `none` is the result false.
unfoldable pub ascon128a_encrypt : Bytes → Bytes → Bytes → Bytes → Option Bytes
ascon128a_encrypt key nonce ad pt =
    if length key == key_bytes && length nonce == nonce_bytes
    then (let start = absorb_associated_data (initialise key nonce) ad in
        let full = encrypt_blocks (length pt / rate_bytes) start pt in
        let last = add_block full.state (padded full.remaining) in
        some ((full.out ++ take (length full.remaining) (rate_of last)) ++ finalise last key))
    else none

-- The rate with the last bytes of the ciphertext in it and the padding bit after them.
unfoldable pub rebuilt : Bytes → Bytes → Bytes
rebuilt rate rest =
    rest ++ bit_xor (get_or rate (length rest) 0) 0x80 ∷ drop (suc (length rest)) rate

-- The plaintext and the tag that belong to a ciphertext without its tag.
unfoldable pub opened : Bytes → Bytes → Bytes → Bytes → Bytes × Bytes
opened key nonce ad body =
    let start = absorb_associated_data (initialise key nonce) ad in
    let full = decrypt_blocks (length body / rate_bytes) start body in
    let rate = rate_of full.state in
    let last = replace_rate full.state (rebuilt rate full.remaining) in
    (full.out ++ xor_each rate full.remaining, finalise last key)

-- `none` is the result false.
unfoldable pub ascon128a_decrypt : Bytes → Bytes → Bytes → Bytes → Option Bytes
ascon128a_decrypt key nonce ad ct =
    if length key == key_bytes && length nonce == nonce_bytes
    then (if ltb (length ct) tag_bytes
        then none
        else (let body_len = length ct - tag_bytes in
            let (pt, tag) = opened key nonce ad (take body_len ct) in
            if bytes_eq tag (drop body_len ct) then some pt else none))
    else none

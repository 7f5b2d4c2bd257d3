-- ===== src/Base/Words.antt =====
-- The bitwise operations on machine words, as far as the bytes of a word need them.
use Prim.Native.Nat.{
  ℕ, zero, suc, ◌+◌, ◌-◌, ◌*◌, ◌/◌, ◌%◌, ◌≤◌, ◌<◌, min, differ, digits, bitwise, bit_and, bit_xor,
  bit_and-bitwise, bit_xor-bitwise,
}
use mathlib.Core.Path.{◌≡◌, refl, ap, sym, ◌∙◌}
use mathlib.Core.Logic.{◌≢◌}
use native.Mathlib.Omega.{arith}

-- The number of words of `k` bits.
unfoldable pub two_to : ℕ → ℕ
two_to zero = 1
two_to (suc k) = 2 * two_to k

differ-lt : (x y : ℕ) → x < 2 → y < 2 → differ x y < 2
differ-lt zero y hx hy = hy
differ-lt (suc zero) zero hx hy = hx
differ-lt (suc zero) (suc y) hx hy = omega arith
differ-lt (suc (suc x)) y hx hy = absurd (omega arith)

differ_twice_left : (x y : ℕ) → x < 2 → y < 2 → differ x (differ x y) ≡ y
differ_twice_left zero y hx hy = refl
differ_twice_left (suc zero) zero hx hy = refl
differ_twice_left (suc zero) (suc zero) hx hy = refl
differ_twice_left (suc (suc x)) y hx hy = absurd (omega arith)
differ_twice_left (suc zero) (suc (suc y)) hx hy = absurd (omega arith)

differ-zero : (x : ℕ) → x < 2 → differ x 0 ≡ x
differ-zero zero h = refl
differ-zero (suc x) h = refl

-- One operation on digits, by what it does on the halves; `z` is the result once the first number has
-- run out.
module _ (z : ℕ → ℕ) (f : ℕ → ℕ → ℕ) where
  one_more : (n a b : ℕ) → a ≤ n → digits z f (suc n) a b ≡ digits z f n a b
  one_more n zero b h = run_out n b
    where
      run_out : (n b : ℕ) → z b ≡ digits z f n zero b
      run_out zero b = refl
      run_out (suc n) b = refl
  one_more zero (suc a) b h = absurd (omega arith)
  one_more (suc n) (suc a) b h =
      ap (λ t. t * 2 + f (suc a % 2) (b % 2)) (one_more n (suc a / 2) (b / 2) (omega arith))

  many_more : (k m n b : ℕ) → n ≡ k + m → digits z f n m b ≡ bitwise z f m b
  many_more zero m n b h = ap (λ n. digits z f n m b) (omega (arith, h))
  many_more (suc k) m zero b h = absurd (omega (arith, h))
  many_more (suc k) m (suc n) b h =
      one_more n m b (omega (arith, h)) ∙ many_more k m n b (omega (arith, h))

  halves :
      ((b : ℕ) → z b ≡ z (b / 2) * 2 + f 0 (b % 2))
      → (a b : ℕ) → bitwise z f a b ≡ bitwise z f (a / 2) (b / 2) * 2 + f (a % 2) (b % 2)
  halves law zero b = law b
  halves law (suc a) b =
      ap (λ t. t * 2 + f (suc a % 2) (b % 2))
        (many_more (a - suc a / 2) (suc a / 2) a (b / 2) (omega arith))

bit_xor_step : (a b : ℕ) → bit_xor a b ≡ bit_xor (a / 2) (b / 2) * 2 + differ (a % 2) (b % 2)
bit_xor_step a b = omega (
  arith,
  bit_xor-bitwise a b,
  bit_xor-bitwise (a / 2) (b / 2),
  halves (λ b. b) differ (λ b. omega arith) a b,
)

bit_and_step : (a b : ℕ) → bit_and a b ≡ bit_and (a / 2) (b / 2) * 2 + min (a % 2) (b % 2)
bit_and_step a b = omega (
  arith,
  bit_and-bitwise a b,
  bit_and-bitwise (a / 2) (b / 2),
  halves (λ b. zero) min (λ b. omega arith) a b,
)

differ-one : (x : ℕ) → x < 2 → differ x 1 ≡ 1 - x
differ-one zero h = refl
differ-one (suc zero) h = refl
differ-one (suc (suc x)) h = absurd (omega arith)

-- The lowest bit flips.
pub bit_xor-one : (a : ℕ) → bit_xor a 1 ≢ a
bit_xor-one a e = absurd (omega (arith, e, bit_xor_step a 1, differ-one (a % 2) (omega arith)))

pub bit_xor-lt : (k a b : ℕ) → a < two_to k → b < two_to k → bit_xor a b < two_to k
unfolding two_to
bit_xor-lt zero zero zero ha hb = omega arith
bit_xor-lt zero zero (suc b) ha hb = absurd (omega arith)
bit_xor-lt zero (suc a) b ha hb = absurd (omega arith)
bit_xor-lt (suc k) a b ha hb = omega (
  arith,
  bit_xor_step a b,
  bit_xor-lt k (a / 2) (b / 2) (omega arith) (omega arith),
  differ-lt (a % 2) (b % 2) (omega arith) (omega arith),
)

pub bit_and-lt : (k a b : ℕ) → a < two_to k → bit_and a b < two_to k
unfolding two_to
bit_and-lt zero zero b ha = omega (arith, bit_and-bitwise 0 b)
bit_and-lt zero (suc a) b ha = absurd (omega arith)
bit_and-lt (suc k) a b ha =
    omega (arith, bit_and_step a b, bit_and-lt k (a / 2) (b / 2) (omega arith))

-- The halves and the lowest bits of an exclusive or.
half-bit_xor : (a b : ℕ) → bit_xor a b / 2 ≡ bit_xor (a / 2) (b / 2)
half-bit_xor a b =
    omega (arith, bit_xor_step a b, differ-lt (a % 2) (b % 2) (omega arith) (omega arith))

lowest-bit_xor : (a b : ℕ) → bit_xor a b % 2 ≡ differ (a % 2) (b % 2)
lowest-bit_xor a b =
    omega (arith, bit_xor_step a b, differ-lt (a % 2) (b % 2) (omega arith) (omega arith))

-- Exclusive or with the same word twice.
pub bit_xor_cancel_left : (k a b : ℕ) → a < two_to k → b < two_to k → bit_xor a (bit_xor a b) ≡ b
unfolding two_to
bit_xor_cancel_left zero zero zero ha hb = refl
bit_xor_cancel_left zero zero (suc b) ha hb = absurd (omega arith)
bit_xor_cancel_left zero (suc a) b ha hb = absurd (omega arith)
bit_xor_cancel_left (suc k) a b ha hb = omega (
  arith,
  bit_xor_step a (bit_xor a b),
  ap (bit_xor (a / 2)) (half-bit_xor a b),
  ap (differ (a % 2)) (lowest-bit_xor a b),
  bit_xor_cancel_left k (a / 2) (b / 2) (omega arith) (omega arith),
  differ_twice_left (a % 2) (b % 2) (omega arith) (omega arith),
)

pub bit_xor-zero : (k a : ℕ) → a < two_to k → bit_xor a 0 ≡ a
unfolding two_to
bit_xor-zero zero zero h = refl
bit_xor-zero zero (suc a) h = absurd (omega arith)
bit_xor-zero (suc k) a h = omega (
  arith,
  bit_xor_step a 0,
  bit_xor-zero k (a / 2) (omega arith),
  differ-zero (a % 2) (omega arith),
)

-- Exclusive or bit by bit: of what stands above the lowest `k` bits, and of those.
above : ℕ → ℕ → ℕ
above zero a = a
above (suc k) a = above k (a / 2)

below : ℕ → ℕ → ℕ
below zero a = 0
below (suc k) a = below k (a / 2) * 2 + a % 2

above-bit_xor : (k a b : ℕ) → above k (bit_xor a b) ≡ bit_xor (above k a) (above k b)
unfolding above
above-bit_xor zero a b = refl
above-bit_xor (suc k) a b = ap (above k) (half-bit_xor a b) ∙ above-bit_xor k (a / 2) (b / 2)

below-none : (a : ℕ) → below 0 a ≡ 0
unfolding below
below-none a = refl

below-suc : (k a : ℕ) → below (suc k) a ≡ below k (a / 2) * 2 + a % 2
unfolding below
below-suc k a = refl

half-below : (k a : ℕ) → below (suc k) a / 2 ≡ below k (a / 2)
unfolding below
half-below k a = omega arith

lowest-below : (k a : ℕ) → below (suc k) a % 2 ≡ a % 2
unfolding below
lowest-below k a = omega arith

below-bit_xor : (k a b : ℕ) → below k (bit_xor a b) ≡ bit_xor (below k a) (below k b)
below-bit_xor zero a b = rw (below-none (bit_xor a b), below-none a, below-none b) refl
below-bit_xor (suc k) a b =
    rw
      (
        bit_xor_step (below (suc k) a) (below (suc k) b),
        half-below k a,
        half-below k b,
        lowest-below k a,
        lowest-below k b,
        below-suc k (bit_xor a b),
        half-bit_xor a b,
        lowest-bit_xor a b,
        below-bit_xor k (a / 2) (b / 2),
      )
      refl

byte-below : (a : ℕ) → below 8 a ≡ a % 256
unfolding below
byte-below a = omega arith

byte-above : (a : ℕ) → above 8 a ≡ a / 256
unfolding above
byte-above a = omega arith

-- The lowest byte of an exclusive or, and what stands above it.
pub byte-bit_xor : (a b : ℕ) → bit_xor a b % 256 ≡ bit_xor (a % 256) (b % 256)
byte-bit_xor a b =
    rw (sym (byte-below (bit_xor a b)), sym (byte-below a), sym (byte-below b))
      (below-bit_xor 8 a b)

pub above_byte-bit_xor : (a b : ℕ) → bit_xor a b / 256 ≡ bit_xor (a / 256) (b / 256)
above_byte-bit_xor a b =
    rw (sym (byte-above (bit_xor a b)), sym (byte-above a), sym (byte-above b))
      (above-bit_xor 8 a b)

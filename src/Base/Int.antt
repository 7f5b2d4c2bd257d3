-- ===== src/Base/Int.antt =====
-- The `int` identifiers: the ground station is -1, the drones count from 0.
use Prim.Native.Nat.{ℕ, ◌-◌, ◌%◌, ◌<◌}
use mathlib.Core.Path.{◌≡◌, refl}
use mathlib.Core.Logic.{◌↔◌}
use mathlib.Core.Bool.{Bool, true, false}
use native.Mathlib.Omega.{arith}
use uav_omnet.Base.Tests.{◌==◌, ltb, if◌then◌else◌}

-- `negsuc n` is -(n + 1).
pub data ℤ : Type 0 where
  pos : ℕ → ℤ
  negsuc : ℕ → ℤ

unfoldable pub eq_ℤ : ℤ → ℤ → Bool
eq_ℤ (pos a) (pos b) = a == b
eq_ℤ (pos a) (negsuc b) = false
eq_ℤ (negsuc a) (pos b) = false
eq_ℤ (negsuc a) (negsuc b) = a == b

unfoldable pub ltb_ℤ : ℤ → ℤ → Bool
ltb_ℤ (pos a) (pos b) = ltb a b
ltb_ℤ (pos a) (negsuc b) = false
ltb_ℤ (negsuc a) (pos b) = true
ltb_ℤ (negsuc a) (negsuc b) = ltb b a

pub eq_ℤ_iff : (a b : ℤ) → (eq_ℤ a b ≡ true) ↔ (a ≡ b)
unfolding eq_ℤ
eq_ℤ_iff (pos a) (pos b) = ground arith
eq_ℤ_iff (pos a) (negsuc b) = ground arith
eq_ℤ_iff (negsuc a) (pos b) = ground arith
eq_ℤ_iff (negsuc a) (negsuc b) = ground arith

pub eq_ℤ_refl : (a : ℤ) → eq_ℤ a a ≡ true
eq_ℤ_refl a = (eq_ℤ_iff a a).1 refl

-- `std::min` and `std::max`.
unfoldable pub min_ℤ : ℤ → ℤ → ℤ
min_ℤ a b = if ltb_ℤ b a then b else a

unfoldable pub max_ℤ : ℤ → ℤ → ℤ
max_ℤ a b = if ltb_ℤ a b then b else a

pub min_ℤ_comm : (a b : ℤ) → min_ℤ a b ≡ min_ℤ b a
unfolding min_ℤ ltb_ℤ
min_ℤ_comm (pos a) (pos b) = ground arith
min_ℤ_comm (pos a) (negsuc b) = ground arith
min_ℤ_comm (negsuc a) (pos b) = ground arith
min_ℤ_comm (negsuc a) (negsuc b) = ground arith

pub max_ℤ_comm : (a b : ℤ) → max_ℤ a b ≡ max_ℤ b a
unfolding max_ℤ ltb_ℤ
max_ℤ_comm (pos a) (pos b) = ground arith
max_ℤ_comm (pos a) (negsuc b) = ground arith
max_ℤ_comm (negsuc a) (pos b) = ground arith
max_ℤ_comm (negsuc a) (negsuc b) = ground arith

-- `static_cast<uint16_t>` of an `int`, in two's complement.
unfoldable pub to_u16 : ℤ → ℕ
to_u16 (pos n) = n % 65536
to_u16 (negsuc n) = 65535 - n % 65536

pub to_u16-lt : (a : ℤ) → to_u16 a < 65536
unfolding to_u16
to_u16-lt (pos n) = omega arith
to_u16-lt (negsuc n) = omega arith

-- ===== src/Base/Resize.antt =====
-- `resize` of a byte string.
use Prim.Native.Nat.{ℕ, ◌-◌}
use mathlib.Core.Path.{◌≡◌}
use mathlib.Core.Logic.{inl, inr}
use mathlib.Core.List.{List, ◌++◌}
use native.Mathlib.Omega.{arith}
use uav_omnet.Base.Tests.{ltb, if◌then◌else◌, Bool-cases}
use uav_omnet.Base.Lists.{length, take, replicate, length-take, length-append, length-replicate}

-- What is missing is filled up with zeros.
unfoldable pub resize : ℕ → List ℕ → List ℕ
resize n b = if ltb (length b) n then b ++ replicate (n - length b) 0 else take n b

pub length-resize : (n : ℕ) (b : List ℕ) → length (resize n b) ≡ n
unfolding resize
length-resize n b = elim (Bool-cases (ltb (length b) n)) [
  | inl less ↦ rw less (
      ground (
        arith,
        length-append b (replicate (n - length b) 0),
        length-replicate {A = ℕ} (n - length b) 0,
      ))
  | inr enough ↦ rw enough (length-take n b (ground arith))
]

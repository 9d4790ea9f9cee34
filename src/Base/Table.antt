-- ===== src/Base/Table.antt =====
-- A statement about the numbers below a bound, checked value by value.
use Prim.Native.Nat.{ℕ, zero, suc, ◌<◌}
use mathlib.Core.Path.{◌≡◌}
use mathlib.Core.Bool.{Bool, true, ◌&&◌}
use native.Mathlib.Omega.{arith}
use native.Mathlib.Decide.{ℕ_discrete}

unfoldable pub table : (ℕ → Bool) → ℕ → Bool
table test zero = true
table test (suc n) = table test n && test n

-- A table that evaluates to `true` gives each of its entries.
pub table-entry :
    (test : ℕ → Bool) (bound : ℕ) → table test bound ≡ true → (i : ℕ) → i < bound → test i ≡ true
unfolding table
table-entry test zero whole i small = absurd (omega arith)
table-entry test (suc n) whole i small = elim (ℕ_discrete i n) [
  | yes last ↦ ground arith
  | no before ↦ table-entry test n (ground arith) i (omega arith)
]

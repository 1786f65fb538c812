-- ===== src/Base/Order.antt =====
-- Descending searches: the loop `while (n > 0 && !wanted (n)) n--;`.
use Prim.Native.Nat.{ℕ, zero, suc, ◌≤◌, ◌<◌}
use mathlib.Core.Path.{◌≡◌}
use mathlib.Core.Logic.{inl, inr}
use mathlib.Core.Bool.{Bool, true, false}
use native.Mathlib.Decide.{ℕ_discrete}
use native.Mathlib.Omega.{arith}
use soes.Base.Tests.{if◌then◌else◌, Bool-cases}

unfoldable pub scan_down : (ℕ → Bool) → ℕ → ℕ
scan_down wanted zero = zero
scan_down wanted (suc n) = let rest = scan_down wanted n in if wanted (suc n) then suc n else rest

pub scan_down-le : (wanted : ℕ → Bool) (n : ℕ) → scan_down wanted n ≤ n
unfolding scan_down
scan_down-le wanted zero = omega arith
scan_down-le wanted (suc n) = ground (arith, scan_down-le wanted n)

-- What the search finds, it wanted; it stops at 0 only if nothing above is wanted.
pub scan_down-wanted :
    (wanted : ℕ → Bool) (n : ℕ) → 0 < scan_down wanted n → wanted (scan_down wanted n) ≡ true
unfolding scan_down
scan_down-wanted wanted zero h = absurd (omega arith)
scan_down-wanted wanted (suc n) h = elim (Bool-cases (wanted (suc n))) [
  | inl e ↦ rw (e, if◌then◌else◌) e
  | inr e ↦ rw (e, if◌then◌else◌) (scan_down-wanted wanted n (rw (e, if◌then◌else◌) at h))
]

pub scan_down-above :
    (wanted : ℕ → Bool) (n k : ℕ) → scan_down wanted n < k → k ≤ n → wanted k ≡ false
unfolding scan_down
scan_down-above wanted zero k h b = absurd (omega arith)
scan_down-above wanted (suc n) k h b = elim (Bool-cases (wanted (suc n))) [
  | inl e ↦ absurd (omega (arith, (rw (e, if◌then◌else◌) at h)))
  | inr e ↦ elim (ℕ_discrete k (suc n)) [
    | yes q ↦ rw q e
    | no q ↦ scan_down-above wanted n k (rw (e, if◌then◌else◌) at h) (omega arith)
  ]
]

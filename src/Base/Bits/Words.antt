-- ===== src/Base/Bits/Words.antt =====
-- The bits of the results of the operators on words of 64 bits.
use Prim.Native.Nat.{ℕ, ◌+◌, ◌-◌, ◌*◌, ◌^◌, ◌≤◌, ◌<◌}
use mathlib.Core.Path.{◌≡◌, ◌∙◌}
use native.Mathlib.Omega.{arith}
use soes.Base.Bits.{bit, u64, complement, ◌<<<◌, ◌>>>◌}
use soes.Base.Bits.Digits.{bit-low, bit-up, bit-below, bit-down, bit-opposite}

pub bit-u64 : (a i : ℕ) → i < 64 → bit (u64 a) i ≡ bit a i
bit-u64 a i h = bit-low 64 a i h

pub bit-left : (a k i : ℕ) → i < 64 → k ≤ i → bit (a <<< k) i ≡ bit a (i - k)
unfolding ◌<<<◌
bit-left a k i h l = bit-u64 (a * 2 ^ k) i h ∙ bit-up k a i l

pub bit-left_below : (a k i : ℕ) → i < 64 → i < k → bit (a <<< k) i ≡ 0
unfolding ◌<<<◌
bit-left_below a k i h l = bit-u64 (a * 2 ^ k) i h ∙ bit-below k a i l

pub bit-right : (a k i : ℕ) → bit (a >>> k) i ≡ bit a (i + k)
unfolding ◌>>>◌
bit-right a k i = bit-down k a i

pub bit-complement : (a i : ℕ) → i < 64 → bit (complement a) i ≡ 1 - bit a i
unfolding complement
bit-complement a i h = omega (arith, bit-opposite 64 (u64 a) i (omega arith) h, bit-u64 a i h)

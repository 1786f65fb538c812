-- ===== src/Base/Int.antt =====
-- Signed integers over the native numbers, as far as the counters need them: `negsuc n` is -(n + 1).
use Prim.Native.Nat.{ℕ, suc, ◌+◌, ◌-◌, ◌%◌}
use mathlib.Core.Bool.{Bool, true, false}
use soes.Base.Tests.{ltb, if◌then◌else◌}

pub data ℤ : Type 0 where
  pos : ℕ → ℤ
  negsuc : ℕ → ℤ

-- a - b, as an integer.
abbrev pub sub_ℕ : ℕ → ℕ → ℤ
sub_ℕ a b = if ltb a b then negsuc (b - a - 1) else pos (a - b)

-- z + n
unfoldable pub add_ℕ : ℤ → ℕ → ℤ
add_ℕ (pos m) n = pos (m + n)
add_ℕ (negsuc m) n = sub_ℕ n (suc m)

-- 0 < z, and n < z
abbrev pub exceeds : ℕ → ℤ → Bool
exceeds n (pos m) = ltb n m
exceeds n (negsuc m) = false

-- The cast of an int32_t in the range -65536 to 65535 to int16_t.
unfoldable pub to_int16 : ℤ → ℤ
to_int16 (pos m) = let r = m % 65536 in if ltb r 32768 then pos r else negsuc (65535 - r)
to_int16 (negsuc m) = let r = m % 65536 in if ltb r 32768 then negsuc r else pos (65535 - r)

-- z < n
abbrev pub below : ℤ → ℕ → Bool
below (pos m) n = ltb m n
below (negsuc m) n = true

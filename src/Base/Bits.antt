-- ===== src/Base/Bits.antt =====
-- Words of 64 bits and their operators in C (&, |, ~, << and >>), and the digits of a number.
pub mod Digits
pub mod Words
use Prim.Native.Nat.{ℕ, zero, suc, ◌-◌, ◌*◌, ◌/◌, ◌%◌, ◌^◌}

abbrev pub u64 : ℕ → ℕ
u64 n = n % 18446744073709551616

infixl 75 ◌<<<◌ ◌>>>◌
-- A shift to the left that stays in a word.
unfoldable pub ◌<<<◌ : ℕ → ℕ → ℕ
a <<< k = u64 (a * 2 ^ k)

unfoldable pub ◌>>>◌ : ℕ → ℕ → ℕ
a >>> k = a / 2 ^ k

-- All bits of a word but those of `a`.
unfoldable pub complement : ℕ → ℕ
complement a = 18446744073709551615 - u64 a

-- Bit `i` of a number.
unfoldable pub bit : ℕ → ℕ → ℕ
bit a zero = a % 2
bit a (suc i) = bit (a / 2) i

-- ===== src/Base/Bits/Digits.antt =====
-- The bits of the results of the operators on words.
use Prim.Native.Nat.{
  ℕ, zero, suc, ◌+◌, ◌-◌, ◌*◌, ◌/◌, ◌%◌, ◌^◌, ◌≤◌, ◌<◌, min, max, bit_and, bit_or, digits, bitwise,
  bit_and-bitwise, bit_or-bitwise,
}
use mathlib.Core.Path.{◌≡◌, refl, sym, ap, ◌∙◌, subst}
use native.Mathlib.Nat.{div-div-eq-div-mul, div-mul-le_self, mod-eq-sub-div-mul}
use native.Mathlib.Omega.{arith}
use soes.Base.Bits.{bit}

-- The count of digits to go does not matter once it is enough.
module _ (z : ℕ → ℕ) (f : ℕ → ℕ → ℕ) where
  counts_agree : (n m a b : ℕ) → a ≤ n → a ≤ m → digits z f n a b ≡ digits z f m a b
  counts_agree zero zero zero b p q = refl
  counts_agree zero (suc m) zero b p q = refl
  counts_agree (suc n) zero zero b p q = refl
  counts_agree (suc n) (suc m) zero b p q = refl
  counts_agree zero m (suc a) b p q = absurd (omega arith)
  counts_agree (suc n) zero (suc a) b p q = absurd (omega arith)
  counts_agree (suc n) (suc m) (suc a) b p q =
      ap (λ r. r * 2 + f (suc a % 2) (b % 2))
        (counts_agree n m (suc a / 2) (b / 2) (omega arith) (omega arith))

  lowest_digit :
      (a b : ℕ)
      → bitwise z f (suc a) b ≡ bitwise z f (suc a / 2) (b / 2) * 2 + f (suc a % 2) (b % 2)
  lowest_digit a b =
      ap (λ r. r * 2 + f (suc a % 2) (b % 2))
        (counts_agree a (suc a / 2) (suc a / 2) (b / 2) (omega arith) (omega arith))

and_digit : (a b : ℕ) → bit_and a b ≡ bit_and (a / 2) (b / 2) * 2 + min (a % 2) (b % 2)
and_digit zero b = simp bit_and-bitwise (omega arith)
and_digit (suc a) b = simp bit_and-bitwise (lowest_digit (λ y. 0) min a b)

or_digit : (a b : ℕ) → bit_or a b ≡ bit_or (a / 2) (b / 2) * 2 + max (a % 2) (b % 2)
or_digit zero b = simp bit_or-bitwise (omega arith)
or_digit (suc a) b = simp bit_or-bitwise (lowest_digit (λ y. y) max a b)

bit_same : (a b i : ℕ) → a ≡ b → bit a i ≡ bit b i
bit_same a b i h = ap (λ n. bit n i) h

bit_half : (a b i : ℕ) → a / 2 ≡ b → bit a (suc i) ≡ bit b i
unfolding bit
bit_half a b i h = ap (λ n. bit n i) h

pub bit-and : (a b i : ℕ) → bit (bit_and a b) i ≡ min (bit a i) (bit b i)
unfolding bit
bit-and a b zero = omega (arith, and_digit a b)
bit-and a b (suc i) =
    bit_half (bit_and a b) (bit_and (a / 2) (b / 2)) i (omega (arith, and_digit a b))
    ∙ bit-and (a / 2) (b / 2) i

pub bit-or : (a b i : ℕ) → bit (bit_or a b) i ≡ max (bit a i) (bit b i)
unfolding bit
bit-or a b zero = omega (arith, or_digit a b)
bit-or a b (suc i) =
    bit_half (bit_or a b) (bit_or (a / 2) (b / 2)) i (omega (arith, or_digit a b))
    ∙ bit-or (a / 2) (b / 2) i

mod_half : (a m : ℕ) → 0 < m → a % (2 * m) ≡ (a / 2 % m) * 2 + a % 2
mod_half a m h = ground (
  arith,
  mod-eq-sub-div-mul a (2 * m),
  mod-eq-sub-div-mul (a / 2) m,
  div-div-eq-div-mul a 2 m,
  div-mul-le_self (a / 2) m,
)

pub pow_suc : (k : ℕ) → 2 ^ suc k ≡ 2 * 2 ^ k
pow_suc k = omega arith

pub pow_pos : (k : ℕ) → 0 < 2 ^ k
pow_pos zero = omega arith
pow_pos (suc k) = omega (arith, pow_pos k)

pub pow_le : (k n : ℕ) → k ≤ n → 2 ^ k ≤ 2 ^ n
pow_le zero n h = pow_pos n
pow_le (suc k) zero h = absurd (omega arith)
pow_le (suc k) (suc n) h = omega (arith, pow_suc k, pow_suc n, pow_le k n (omega arith))

low_half : (k a : ℕ) → a % 2 ^ suc k ≡ (a / 2 % 2 ^ k) * 2 + a % 2
low_half k a = ap (λ m. a % m) (pow_suc k) ∙ mod_half a (2 ^ k) (pow_pos k)

-- The low `k` bits of a number.
pub bit-low : (k a i : ℕ) → i < k → bit (a % 2 ^ k) i ≡ bit a i
unfolding bit
bit-low zero a i h = absurd (omega arith)
bit-low (suc k) a zero h = omega (arith, low_half k a)
bit-low (suc k) a (suc i) h =
    bit_half (a % 2 ^ suc k) (a / 2 % 2 ^ k) i (omega (arith, low_half k a))
    ∙ bit-low k (a / 2) i (omega arith)

pub bit-zero : (i : ℕ) → bit 0 i ≡ 0
unfolding bit
bit-zero zero = refl
bit-zero (suc i) = bit-zero i

pub bit-high : (k a i : ℕ) → a < 2 ^ k → k ≤ i → bit a i ≡ 0
unfolding bit
bit-high zero a i h l = bit_same a 0 i (omega arith) ∙ bit-zero i
bit-high (suc k) a zero h l = absurd (omega arith)
bit-high (suc k) a (suc i) h l = bit-high k (a / 2) i (omega (arith, pow_suc k)) (omega arith)

pub bit-le : (a i : ℕ) → bit a i ≤ 1
unfolding bit
bit-le a zero = omega arith
bit-le a (suc i) = bit-le (a / 2) i

double : (k a : ℕ) → a * 2 ^ suc k ≡ 2 * (a * 2 ^ k)
double k a = ap (λ m. a * m) (pow_suc k) ∙ (omega arith)

pub bit_at : (a i j : ℕ) → i ≡ j → bit a i ≡ bit a j
bit_at a i j h = ap (λ n. bit a n) h

-- Bits of a number that is moved up.
pub bit-up : (k a j : ℕ) → k ≤ j → bit (a * 2 ^ k) j ≡ bit a (j - k)
bit-up zero a j h = bit_same (a * 1) a j (omega arith) ∙ bit_at a j (j - 0) (omega arith)
bit-up (suc k) a zero h = absurd (omega arith)
bit-up (suc k) a (suc j) h =
    bit_half (a * 2 ^ suc k) (a * 2 ^ k) j (omega (arith, double k a))
    ∙ bit-up k a j (omega arith)
    ∙ bit_at a (j - k) (suc j - suc k) (omega arith)

pub bit-below : (k a i : ℕ) → i < k → bit (a * 2 ^ k) i ≡ 0
unfolding bit
bit-below zero a i h = absurd (omega arith)
bit-below (suc k) a zero h = omega (arith, double k a)
bit-below (suc k) a (suc i) h =
    bit_half (a * 2 ^ suc k) (a * 2 ^ k) i (omega (arith, double k a))
    ∙ bit-below k a i (omega arith)

-- Bits of a number that is moved down.
pub bit-down : (k a i : ℕ) → bit (a / 2 ^ k) i ≡ bit a (i + k)
bit-down zero a i = bit_same (a / 1) a i (omega arith) ∙ bit_at a i (i + 0) (omega arith)
bit-down (suc k) a i =
    bit_same (a / 2 ^ suc k) (a / 2 / 2 ^ k) i
      (ap (λ m. a / m) (pow_suc k) ∙ sym (div-div-eq-div-mul a 2 (2 ^ k)))
    ∙ bit-down k (a / 2) i
    ∙ sym (bit_half a (a / 2) (i + k) refl)
    ∙ bit_at a (suc (i + k)) (i + suc k) (omega arith)

-- A run of ones.
pub bit-ones : (k i : ℕ) → i < k → bit (2 ^ k - 1) i ≡ 1
unfolding bit
bit-ones zero i h = absurd (omega arith)
bit-ones (suc k) zero h = omega (arith, pow_suc k, pow_pos k)
bit-ones (suc k) (suc i) h =
    bit_half ((2 ^ suc k - 1)) (2 ^ k - 1) i (omega (arith, pow_suc k, pow_pos k))
    ∙ bit-ones k i (omega arith)

pub bit-opposite : (k a i : ℕ) → a < 2 ^ k → i < k → bit (2 ^ k - 1 - a) i ≡ 1 - bit a i
unfolding bit
bit-opposite zero a i l h = absurd (omega arith)
bit-opposite (suc k) a zero l h = omega (arith, pow_suc k)
bit-opposite (suc k) a (suc i) l h =
    bit_half ((2 ^ suc k - 1 - a)) (2 ^ k - 1 - a / 2) i (omega (arith, pow_suc k))
    ∙ bit-opposite k (a / 2) i (omega (arith, pow_suc k)) (omega arith)

-- Numbers below a power of two with the same bits are the same.
pub same_bits : (k a b : ℕ) → a < 2 ^ k → b < 2 ^ k → ((i : ℕ) → i < k → bit a i ≡ bit b i) → a ≡ b
unfolding bit
same_bits zero a b p q h = omega arith
same_bits (suc k) a b p q h = omega (
  arith,
  h 0 (omega arith),
  same_bits k (a / 2) (b / 2) (omega (arith, pow_suc k)) (omega (arith, pow_suc k))
      (λ i l. h (suc i) (omega arith)),
)

lt-pow : (a : ℕ) → a < 2 ^ a
lt-pow zero = omega arith
lt-pow (suc a) = omega (arith, pow_suc a, lt-pow a)

and_shrinks : (k a b : ℕ) → a < 2 ^ k → bit_and a b ≤ b
and_shrinks zero a b h =
    let none_left : 0 ≡ a = omega arith in
    subst (λ n. bit_and n b ≤ b) none_left (omega (arith, bit_and-bitwise 0 b))
and_shrinks (suc k) a b h =
    omega (arith, and_digit a b, and_shrinks k (a / 2) (b / 2) (omega (arith, pow_suc k)))

pub bit_and-le : (a b : ℕ) → bit_and a b ≤ b
bit_and-le a b = and_shrinks a a b (lt-pow a)

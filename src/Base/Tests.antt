-- ===== src/Base/Tests.antt =====
-- Boolean tests on the native numbers, the conditional, fixed-width wraps and single bits.
use Prim.Native.Nat.{ℕ, suc, ◌+◌, ◌-◌, ◌/◌, ◌%◌, compare, Ordering}
use mathlib.Core.Path.{◌≡◌, refl}
use mathlib.Core.Logic.{◌⊎◌, inl, inr, ◌≢◌}
use mathlib.Core.Bool.{Bool, true, false}
use mathlib.Core.List.{List, [], ◌∷◌}
use native.Mathlib.Omega.{arith}

abbrev pub ltb : ℕ → ℕ → Bool
ltb a b = elim (compare a b) [ Ordering.lt ↦ true | _ ↦ false ]

abbrev pub leb : ℕ → ℕ → Bool
leb a b = elim (compare a b) [ Ordering.gt ↦ false | _ ↦ true ]

infix 50 ◌==◌
abbrev pub ◌==◌ : ℕ → ℕ → Bool
a == b = elim (compare a b) [ Ordering.eq ↦ true | _ ↦ false ]

infix 1 if◌then◌else◌
abbrev pub if◌then◌else◌ {ℓ} : {A : Type ℓ} → Bool → A → A → A
if true then x else y = x
if false then x else y = y

-- uint8_t, uint16_t and uint32_t wrap.
abbrev pub u8 : ℕ → ℕ
u8 n = n % 256

abbrev pub u16 : ℕ → ℕ
u16 n = n % 65536

abbrev pub u32 : ℕ → ℕ
u32 n = n % 4294967296

-- uint32_t subtraction.
abbrev pub sub32 : ℕ → ℕ → ℕ
sub32 a b = u32 (a + 4294967296 - b)

-- Whether the bit of weight `w` (a power of two) is set in `n`: `n & w`.
abbrev pub has_bit : ℕ → ℕ → Bool
has_bit n w = n / w % 2 == 1

-- `n | w` and `n & ~w`, for `w` a power of two.
abbrev pub set_bit : ℕ → ℕ → ℕ
set_bit n w = if has_bit n w then n else n + w

abbrev pub clear_bit : ℕ → ℕ → ℕ
clear_bit n w = if has_bit n w then n - w else n

pub Bool-cases : (b : Bool) → (b ≡ true) ⊎ (b ≡ false)
Bool-cases true = inl refl
Bool-cases false = inr refl

-- A split on a test in the middle of a statement.
pub if-elim {ℓ κ} :
    {A : Type ℓ} (P : A → Type κ) (b : Bool) {x y : A}
    → (b ≡ true → P x)
    → (b ≡ false → P y)
    → P (if b then x else y)
if-elim P true f g = f refl
if-elim P false f g = g refl

pub eq-of-== : (a b : ℕ) → (a == b) ≡ true → a ≡ b
eq-of-== a b h = ground arith

pub ne-of-== : (a b : ℕ) → (a == b) ≡ false → a ≢ b
ne-of-== a b h = ground arith

module _ {ℓ} {A : Type ℓ} where
  abbrev pub length : List A → ℕ
  length [] = 0
  length (x ∷ xs) = suc (length xs)

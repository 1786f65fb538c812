-- ===== src/Base/Memory.antt =====
-- Byte memory with little-endian access, as a map from byte offsets.
-- Stored values are cut to a byte and loaded values read modulo 256.
use Prim.Native.Nat.{ℕ, zero, suc, ◌+◌, ◌*◌, ◌/◌, ◌%◌, ◌≤◌, ◌<◌}
use mathlib.Core.Path.{◌≡◌}
use mathlib.Core.Logic.{◌≢◌, ◌⊎◌}
use mathlib.Core.List.{List, [], ◌∷◌}
use native.Mathlib.Omega.{arith}
use soes.Base.Tests.{◌==◌, if◌then◌else◌}

abbrev pub Mem : Type 0
Mem = ℕ → ℕ

unfoldable pub load8 : Mem → ℕ → ℕ
load8 m i = m i % 256

unfoldable pub store8 : Mem → ℕ → ℕ → Mem
store8 m i v j = if i == j then v % 256 else m j

unfoldable pub load16 : Mem → ℕ → ℕ
unfolding load8
load16 m i = load8 m i + 256 * load8 m (i + 1)

unfoldable pub store16 : Mem → ℕ → ℕ → Mem
unfolding store8
store16 m i v = store8 (store8 m i v) (i + 1) (v / 256)

unfoldable pub load32 : Mem → ℕ → ℕ
unfolding load16
load32 m i = load16 m i + 65536 * load16 m (i + 2)

unfoldable pub store32 : Mem → ℕ → ℕ → Mem
unfolding store16
store32 m i v = store16 (store16 m i v) (i + 2) (v / 65536)

-- The low and the high four bits of a byte, as two bit fields.
unfoldable pub load_low : Mem → ℕ → ℕ
unfolding load8
load_low m i = load8 m i % 16

unfoldable pub load_high : Mem → ℕ → ℕ
unfolding load8
load_high m i = load8 m i / 16

unfoldable pub store_low : Mem → ℕ → ℕ → Mem
unfolding store8 load8
store_low m i v = store8 m i (load8 m i / 16 * 16 + v % 16)

unfoldable pub store_high : Mem → ℕ → ℕ → Mem
unfolding store8 load8
store_high m i v = store8 m i (load8 m i % 16 + v % 16 * 16)

-- The `n` bytes from offset `i` on.
unfoldable pub bytes : Mem → ℕ → ℕ → List ℕ
unfolding load8
bytes m i zero = []
bytes m i (suc n) = load8 m i ∷ bytes m (i + 1) n

pub load8-lt : (m : Mem) (i : ℕ) → load8 m i < 256
unfolding load8
load8-lt m i = omega arith

pub load16-lt : (m : Mem) (i : ℕ) → load16 m i < 65536
unfolding load16
load16-lt m i = omega arith

pub load32-lt : (m : Mem) (i : ℕ) → load32 m i < 4294967296
unfolding load32
load32-lt m i = omega arith

pub load16-store16 : (m : Mem) (i v : ℕ) → load16 (store16 m i v) i ≡ v % 65536
unfolding load16 store16
load16-store16 m i v = ground arith

pub load32-store32 : (m : Mem) (i v : ℕ) → load32 (store32 m i v) i ≡ v % 4294967296
unfolding load32 store32
load32-store32 m i v = ground arith

pub load8-store8 : (m : Mem) (i v : ℕ) → load8 (store8 m i v) i ≡ v % 256
unfolding load8 store8
load8-store8 m i v = ground arith

pub store8_ne : (m : Mem) (i v j : ℕ) → i ≢ j → store8 m i v j ≡ m j
unfolding store8
store8_ne m i v j h = ground arith

pub store16_ne : (m : Mem) (i v j : ℕ) → i ≢ j → i + 1 ≢ j → store16 m i v j ≡ m j
unfolding store16
store16_ne m i v j h k = ground arith

pub store32_ne : (m : Mem) (i v j : ℕ) → (j < i) ⊎ (i + 4 ≤ j) → store32 m i v j ≡ m j
unfolding store32
store32_ne m i v j h = ground arith

-- Loads see a memory only through the bytes that they read.
pub load8_congr : (m n : Mem) (i : ℕ) → m i ≡ n i → load8 m i ≡ load8 n i
unfolding load8
load8_congr m n i h = ground arith

pub load16_congr : (m n : Mem) (i : ℕ) → m i ≡ n i → m (i + 1) ≡ n (i + 1) → load16 m i ≡ load16 n i
unfolding load16
load16_congr m n i h k = ground arith

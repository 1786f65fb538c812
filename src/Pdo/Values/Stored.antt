-- ===== src/Pdo/Values/Stored.antt =====
-- soes/esc_coe.c: COE_getValue after COE_setValue.
use Prim.Native.Nat.{◌^◌}
use soes.Base.{ℕ, ◌+◌, ◌*◌, ◌≤◌, ◌<◌, ◌≡◌, ◌⊎◌, ◌∙◌, ◌/◌, inl, inr, refl, arith}
use soes.Base.Memory.{
  Mem, load8, load16, load32, store32, load8-store8, load16-store16, load32-store32, store8_ne,
  store16_ne, store32_ne,
}
use soes.Pdo.Slices.{load64, store64}
use soes.Pdo.Splicing.{load64-store64}
use soes.Pdo.Values.{Width, load_as, store_as}

-- The bytes that an access touches.
unfoldable pub width_bytes : Width → ℕ
width_bytes Width.byte = 1
width_bytes Width.half = 2
width_bytes Width.word = 4
width_bytes Width.double = 8
width_bytes Width.unknown = 0

store64_ne : (m : Mem) (i v j : ℕ) → (j < i) ⊎ (i + 8 ≤ j) → store64 m i v j ≡ m j
unfolding store64
store64_ne m i v j (inl h) =
    store32_ne (store32 m i v) (i + 4) (v / 4294967296) j (inl (omega arith))
    ∙ store32_ne m i v j (inl h)
store64_ne m i v j (inr h) =
    store32_ne (store32 m i v) (i + 4) (v / 4294967296) j (inr (omega arith))
    ∙ store32_ne m i v j (inr (omega arith))

store_as_ne :
    (w : Width) (m : Mem) (i v j : ℕ) → (j < i) ⊎ (i + width_bytes w ≤ j) → store_as w m i v j ≡ m j
unfolding store_as width_bytes
store_as_ne Width.byte m i v j h = store8_ne m i v j (ground arith)
store_as_ne Width.half m i v j h = store16_ne m i v j (ground arith) (ground arith)
store_as_ne Width.word m i v j h = store32_ne m i v j h
store_as_ne Width.double m i v j h = store64_ne m i v j h
store_as_ne Width.unknown m i v j h = refl

-- A load sees only the bytes that it touches.
load_as_congr :
    (w : Width) (m n : Mem) (i : ℕ)
    → ((k : ℕ) → k < width_bytes w → m (i + k) ≡ n (i + k))
    → load_as w m i ≡ load_as w n i
unfolding load_as width_bytes load64 load32 load16 load8
load_as_congr Width.byte m n i h = ground (arith, h 0 (omega arith))
load_as_congr Width.half m n i h = ground (arith, h 0 (omega arith), h 1 (omega arith))
load_as_congr Width.word m n i h =
    ground (arith, h 0 (omega arith), h 1 (omega arith), h 2 (omega arith), h 3 (omega arith))
load_as_congr Width.double m n i h = ground (
  arith,
  h 0 (omega arith),
  h 1 (omega arith),
  h 2 (omega arith),
  h 3 (omega arith),
  h 4 (omega arith),
  h 5 (omega arith),
  h 6 (omega arith),
  h 7 (omega arith),
)
load_as_congr Width.unknown m n i h = refl

-- A store elsewhere is not seen.
pub load_as-store_as_apart :
    (w x : Width) (m : Mem) (i j v : ℕ)
    → (i + width_bytes w ≤ j) ⊎ (j + width_bytes x ≤ i)
    → load_as w (store_as x m j v) i ≡ load_as w m i
load_as-store_as_apart w x m i j v (inl h) =
    load_as_congr w (store_as x m j v) m i (λ k l. store_as_ne x m j v (i + k) (inl (omega arith)))
load_as-store_as_apart w x m i j v (inr h) =
    load_as_congr w (store_as x m j v) m i (λ k l. store_as_ne x m j v (i + k) (inr (omega arith)))

pub load_as-store_as :
    (w : Width) (m : Mem) (i v : ℕ)
    → v < 2 ^ (8 * width_bytes w)
    → load_as w (store_as w m i v) i ≡ v
unfolding load_as store_as width_bytes
load_as-store_as Width.byte m i v h = omega (arith, load8-store8 m i v)
load_as-store_as Width.half m i v h = omega (arith, load16-store16 m i v)
load_as-store_as Width.word m i v h = omega (arith, load32-store32 m i v)
load_as-store_as Width.double m i v h = omega (arith, load64-store64 m i v)
load_as-store_as Width.unknown m i v h = omega arith

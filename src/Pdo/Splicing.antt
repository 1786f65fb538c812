-- ===== src/Pdo/Splicing.antt =====
-- soes/esc_coe.c: COE_bitsliceGet and COE_bitsliceSet, bit by bit.
use Prim.Native.Nat.{◌^◌, bit_and}
use soes.Base.{
  ℕ, ◌+◌, ◌-◌, ◌*◌, ◌/◌, ◌%◌, ◌≤◌, ◌<◌, ◌≡◌, ◌≢◌, ◌∙◌, ap, ◌&&◌, ltb, leb, ◌==◌, if◌then◌else◌,
  arith,
}
use soes.Base.Bits.{bit, u64, complement, ◌<<<◌, ◌>>>◌}
use soes.Base.Bits.Digits.{bit-and, bit-or, bit-le, bit-ones, bit-high, pow_le, pow_pos, bit_at}
use soes.Base.Bits.Words.{bit-u64, bit-left, bit-left_below, bit-right, bit-complement}
use soes.Base.Memory.{
  Mem, load8, load16, load32, store8, store16, store32, load32-store32, load32-lt,
}
use soes.Pdo.Slices.{load64, store64, word_at, set_word, slice_mask, merge, bitslice_set}

-- Bit `p` of the process data.
unfoldable pub map_bit : Mem → ℕ → ℕ
map_bit m p = bit (word_at m (p / 64)) (p % 64)

pub word_at-lt : (m : Mem) (w : ℕ) → word_at m w < 2 ^ 64
unfolding word_at load64
word_at-lt m w = omega (arith, load32-lt m (8 * w), load32-lt m (8 * w + 4))

store32-load32_ne : (m : Mem) (i j v : ℕ) → (i + 4 ≤ j) → load32 (store32 m j v) i ≡ load32 m i
unfolding load32 store32 load16 store16 load8 store8
store32-load32_ne m i j v h = ground arith

store32-load32_below : (m : Mem) (i j v : ℕ) → (j + 4 ≤ i) → load32 (store32 m j v) i ≡ load32 m i
unfolding load32 store32 load16 store16 load8 store8
store32-load32_below m i j v h = ground arith

pub load64-store64 : (m : Mem) (i v : ℕ) → load64 (store64 m i v) i ≡ u64 v
unfolding load64 store64
load64-store64 m i v = omega (
  arith,
  store32-load32_ne (store32 m i v) i (i + 4) (v / 4294967296) (omega arith),
  load32-store32 m i v,
  load32-store32 (store32 m i v) (i + 4) (v / 4294967296),
)

word_at-set_word : (m : Mem) (w v : ℕ) → word_at (set_word w v m) w ≡ u64 v
unfolding word_at set_word
word_at-set_word m w v = load64-store64 m (8 * w) v

load64-store64_below : (m : Mem) (i j v : ℕ) → j + 8 ≤ i → load64 (store64 m j v) i ≡ load64 m i
unfolding load64 store64
load64-store64_below m i j v h = omega (
  arith,
  store32-load32_below (store32 m j v) i (j + 4) (v / 4294967296) (omega arith),
  store32-load32_below m i j v (omega arith),
  store32-load32_below (store32 m j v) (i + 4) (j + 4) (v / 4294967296) (omega arith),
  store32-load32_below m (i + 4) j v (omega arith),
)

load64-store64_above : (m : Mem) (i j v : ℕ) → i + 8 ≤ j → load64 (store64 m j v) i ≡ load64 m i
unfolding load64 store64
load64-store64_above m i j v h = omega (
  arith,
  store32-load32_ne (store32 m j v) i (j + 4) (v / 4294967296) (omega arith),
  store32-load32_ne m i j v (omega arith),
  store32-load32_ne (store32 m j v) (i + 4) (j + 4) (v / 4294967296) (omega arith),
  store32-load32_ne m (i + 4) j v (omega arith),
)

word_at-set_word_ne : (m : Mem) (w x v : ℕ) → w ≢ x → word_at (set_word x v m) w ≡ word_at m w
unfolding word_at set_word
word_at-set_word_ne m w x v h =
    ground
      (arith, load64-store64_below m (8 * w) (8 * x) v, load64-store64_above m (8 * w) (8 * x) v)

pub slice_mask-ones : (len : ℕ) → len ≤ 64 → slice_mask len ≡ 2 ^ len - 1
unfolding slice_mask ◌<<<◌
slice_mask-ones len h =
    let full : len ≡ 64 → 2 ^ len ≡ 18446744073709551616 = λ q. ap (λ k. 2 ^ k) q in
    let small : len ≤ 63 → 2 ^ len ≤ 9223372036854775808 = pow_le len 63 in
    ground (arith, full, small, pow_pos len)

pub mask_in : (len i : ℕ) → len ≤ 64 → i < len → bit (slice_mask len) i ≡ 1
mask_in len i h l = ap (λ n. bit n i) (slice_mask-ones len h) ∙ bit-ones len i l

mask_out : (len i : ℕ) → len ≤ 64 → len ≤ i → bit (slice_mask len) i ≡ 0
mask_out len i h l =
    ap (λ n. bit n i) (slice_mask-ones len h)
    ∙ bit-high len (2 ^ len - 1) i (omega (arith, pow_pos len)) l

bit-merge :
    (w mask v i : ℕ)
    → i < 64
    → bit (merge w mask v) i ≡ (if bit mask i == 1 then bit v i else bit w i)
unfolding merge
bit-merge w mask v i h = ground (
  arith,
  bit-or (bit_and w (complement mask)) (bit_and v mask) i,
  bit-and w (complement mask) i,
  bit-and v mask i,
  bit-complement mask i h,
  bit-le mask i,
  bit-le v i,
  bit-le w i,
)

-- The slice from bit `b` of the first word.
first_bit :
    (w b len v i : ℕ)
    → b < 64
    → len ≤ 64
    → i < 64
    → bit (merge w (slice_mask len <<< b) (v <<< b)) i
      ≡ (if leb b i && ltb i (b + len) then bit v (i - b) else bit w i)
first_bit w b len v i hb hl hi = ground (
  arith,
  bit-merge w (slice_mask len <<< b) (v <<< b) i hi,
  bit-left (slice_mask len) b i hi,
  bit-left_below (slice_mask len) b i hi,
  bit-left v b i hi,
  mask_in len (i - b) hl,
  mask_out len (i - b) hl,
)

-- What is left of the slice, in the second word.
second_bit :
    (w k len v i : ℕ)
    → len ≤ 64
    → i < 64
    → bit (merge w (slice_mask len >>> k) (v >>> k)) i
      ≡ (if ltb (i + k) len then bit v (i + k) else bit w i)
second_bit w k len v i hl hi = ground (
  arith,
  bit-merge w (slice_mask len >>> k) (v >>> k) i hi,
  bit-right (slice_mask len) k i,
  bit-right v k i,
  mask_in len (i + k) hl,
  mask_out len (i + k) hl,
)

-- Bit `i` of word `w` after a store of a word.
bit-set_word : (m : Mem) (w v i : ℕ) → i < 64 → bit (word_at (set_word w v m) w) i ≡ bit v i
bit-set_word m w v i h = ap (λ n. bit n i) (word_at-set_word m w v) ∙ bit-u64 v i h

bit-set_word_ne :
    (m : Mem) (w x v i : ℕ) → w ≢ x → bit (word_at (set_word x v m) w) i ≡ bit (word_at m w) i
bit-set_word_ne m w x v i h = ap (λ n. bit n i) (word_at-set_word_ne m w x v h)

-- Bit `p` of the process data after `len` bits at `offset` have become those of `v`.
unfoldable pub spliced : (offset len v : ℕ) → Mem → ℕ → ℕ
spliced offset len v m p =
    if leb offset p && ltb p (offset + len) then bit v (p - offset) else map_bit m p

module _ (m : Mem) (offset len v : ℕ) (fits : len ≤ 64) where
  -- The process data after the first store, and what the second one stores.
  halfway : Mem
  halfway =
      set_word (offset / 64)
        (merge (word_at m (offset / 64)) (slice_mask len <<< (offset % 64)) (v <<< (offset % 64))) m

  rest_of : ℕ
  rest_of =
      merge (word_at halfway (offset / 64 + 1)) (slice_mask len >>> (64 - offset % 64))
        (v >>> (64 - offset % 64))

  at_first :
      (i : ℕ)
      → i < 64
      → bit (word_at (bitslice_set m offset len v) (offset / 64)) i ≡ (
          if leb (offset % 64) i && ltb i (offset % 64 + len)
          then bit v (i - offset % 64)
          else bit (word_at m (offset / 64)) i)
  unfolding bitslice_set halfway rest_of
  at_first i h = ground (
    arith,
    bit-set_word m (offset / 64)
        (merge (word_at m (offset / 64)) (slice_mask len <<< (offset % 64)) (v <<< (offset % 64))) i
        h,
    bit-set_word_ne halfway (offset / 64) (offset / 64 + 1) rest_of i (λ q. omega arith),
    first_bit (word_at m (offset / 64)) (offset % 64) len v i (omega arith) fits h,
  )

  at_second :
      (i : ℕ)
      → i < 64
      → bit (word_at (bitslice_set m offset len v) (offset / 64 + 1)) i ≡ (
          if ltb (i + (64 - offset % 64)) len
          then bit v (i + (64 - offset % 64))
          else bit (word_at m (offset / 64 + 1)) i)
  unfolding bitslice_set halfway rest_of
  at_second i h = ground (
    arith,
    bit-set_word halfway (offset / 64 + 1) rest_of i h,
    bit-set_word_ne m (offset / 64 + 1) (offset / 64)
        (merge (word_at m (offset / 64)) (slice_mask len <<< (offset % 64)) (v <<< (offset % 64))) i
        (λ q. omega arith),
    second_bit (word_at halfway (offset / 64 + 1)) (64 - offset % 64) len v i fits h,
  )

  elsewhere :
      (w i : ℕ)
      → w ≢ offset / 64
      → w ≢ offset / 64 + 1
      → bit (word_at (bitslice_set m offset len v) w) i ≡ bit (word_at m w) i
  unfolding bitslice_set halfway rest_of
  elsewhere w i h k = ground (
    arith,
    bit-set_word_ne halfway w (offset / 64 + 1) rest_of i k,
    bit-set_word_ne m w (offset / 64)
        (merge (word_at m (offset / 64)) (slice_mask len <<< (offset % 64)) (v <<< (offset % 64))) i
        h,
  )

  in_first :
      (p : ℕ)
      → p / 64 ≡ offset / 64
      → map_bit (bitslice_set m offset len v) p ≡ spliced offset len v m p
  unfolding map_bit spliced
  in_first p q = ground (
    arith,
    ap (λ w. bit (word_at (bitslice_set m offset len v) w) (p % 64)) q,
    ap (λ w. bit (word_at m w) (p % 64)) q,
    at_first (p % 64) (omega arith),
    bit_at v (p % 64 - offset % 64) (p - offset),
  )

  in_second :
      (p : ℕ)
      → p / 64 ≡ offset / 64 + 1
      → map_bit (bitslice_set m offset len v) p ≡ spliced offset len v m p
  unfolding map_bit spliced
  in_second p q = ground (
    arith,
    ap (λ w. bit (word_at (bitslice_set m offset len v) w) (p % 64)) q,
    ap (λ w. bit (word_at m w) (p % 64)) q,
    at_second (p % 64) (omega arith),
    bit_at v (p % 64 + (64 - offset % 64)) (p - offset),
  )

  in_neither :
      (p : ℕ)
      → p / 64 ≢ offset / 64
      → p / 64 ≢ offset / 64 + 1
      → map_bit (bitslice_set m offset len v) p ≡ spliced offset len v m p
  unfolding map_bit spliced
  in_neither p h k = ground (arith, elsewhere (p / 64) (p % 64) h k)

  -- COE_bitsliceSet gives the bits of the slice those of the value and leaves all others alone.
  pub bitslice_set_lem :
      (p : ℕ) → map_bit (bitslice_set m offset len v) p ≡ spliced offset len v m p
  bitslice_set_lem p = ground (arith, in_first p, in_second p, in_neither p)

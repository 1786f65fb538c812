-- ===== src/Pdo/Slicing.antt =====
-- soes/esc_coe.c: what COE_bitsliceGet reads, and reading what COE_bitsliceSet has written.
use Prim.Native.Nat.{◌^◌, bit_or}
use soes.Base.{ℕ, ◌+◌, ◌-◌, ◌/◌, ◌%◌, ◌≤◌, ◌<◌, ◌≡◌, ◌∙◌, sym, ap, ltb, if◌then◌else◌, arith}
use native.Mathlib.Nat.{mod-lt}
use soes.Base.Bits.{bit, ◌<<<◌, ◌>>>◌}
use soes.Base.Bits.Digits.{
  bit-and, bit-or, bit-le, bit-high, bit-low, bit-zero, bit_at, bit_and-le, same_bits, pow_pos,
}
use soes.Base.Bits.Words.{bit-left, bit-left_below, bit-right}
use soes.Base.Memory.{Mem}
use soes.Pdo.Slices.{word_at, slice_mask, bitslice_get, bitslice_set}
use soes.Pdo.Splicing.{map_bit, spliced, word_at-lt, mask_in, slice_mask-ones, bitslice_set_lem}

module _ (m : Mem) (offset len : ℕ) (fits : len ≤ 64) where
  low_part :
      (i : ℕ)
      → i + offset % 64 < 64
      → bit (word_at m (offset / 64)) (i + offset % 64) ≡ map_bit m (offset + i)
  unfolding map_bit
  low_part i h =
      ap (λ w. bit (word_at m w) (i + offset % 64)) (omega arith)
      ∙ bit_at (word_at m ((offset + i) / 64)) (i + offset % 64) ((offset + i) % 64) (omega arith)

  high_part :
      (i : ℕ)
      → i < 64
      → 64 ≤ i + offset % 64
      → bit (word_at m (offset / 64 + 1)) (i - (64 - offset % 64)) ≡ map_bit m (offset + i)
  unfolding map_bit
  high_part i h l =
      ap (λ w. bit (word_at m w) (i - (64 - offset % 64))) (omega arith)
      ∙ bit_at (word_at m ((offset + i) / 64)) (i - (64 - offset % 64)) ((offset + i) % 64)
          (omega arith)

  upper : ℕ
  upper =
      if ltb 64 (len + offset % 64) then word_at m (offset / 64 + 1) <<< (64 - offset % 64) else 0

  upper-bit :
      (i : ℕ)
      → i < len
      → bit upper i ≡ (if ltb (i + offset % 64) 64 then 0 else map_bit m (offset + i))
  unfolding upper
  upper-bit i h = ground (
    arith,
    bit-zero i,
    bit-left (word_at m (offset / 64 + 1)) (64 - offset % 64) i (omega arith),
    bit-left_below (word_at m (offset / 64 + 1)) (64 - offset % 64) i (omega arith),
    high_part i (omega arith),
  )

  lower-bit :
      (i : ℕ)
      → i < len
      → bit (word_at m (offset / 64) >>> (offset % 64)) i
        ≡ (if ltb (i + offset % 64) 64 then map_bit m (offset + i) else 0)
  lower-bit i h = ground (
    arith,
    bit-right (word_at m (offset / 64)) (offset % 64) i,
    bit-high 64 (word_at m (offset / 64)) (i + offset % 64) (word_at-lt m (offset / 64)),
    low_part i,
  )

  pub bitslice_get_bits :
      (i : ℕ) → i < len → bit (bitslice_get m offset len) i ≡ map_bit m (offset + i)
  unfolding bitslice_get upper map_bit
  bitslice_get_bits i h = ground (
    arith,
    bit-and (bit_or upper (word_at m (offset / 64) >>> (offset % 64))) (slice_mask len) i,
    bit-or upper (word_at m (offset / 64) >>> (offset % 64)) i,
    upper-bit i h,
    lower-bit i h,
    mask_in len i fits h,
    bit-le (word_at m ((offset + i) / 64)) ((offset + i) % 64),
  )

  pub bitslice_get-lt : bitslice_get m offset len < 2 ^ len
  unfolding bitslice_get upper
  bitslice_get-lt = omega (
    arith,
    bit_and-le (bit_or upper (word_at m (offset / 64) >>> (offset % 64))) (slice_mask len),
    slice_mask-ones len fits,
    pow_pos len,
  )

-- A value that COE_bitsliceSet has written is the one that COE_bitsliceGet reads, cut to the
-- length of the slice, for slices of at most 64 bits.
pub bitslice_get-bitslice_set :
    (m : Mem) (offset len v : ℕ)
    → len ≤ 64
    → bitslice_get (bitslice_set m offset len v) offset len ≡ v % 2 ^ len
unfolding spliced
bitslice_get-bitslice_set m offset len v fits =
    let m' : Mem = bitslice_set m offset len v in
    same_bits len (bitslice_get m' offset len) (v % 2 ^ len) (bitslice_get-lt m' offset len fits)
      (mod-lt v (pow_pos len))
      (λ i h. bitslice_get_bits m' offset len fits i h ∙ written i h ∙ sym (bit-low len v i h))
  where
    in_slice : (i : ℕ) → i < len → spliced offset len v m (offset + i) ≡ bit v i
    in_slice i h = ground (arith, bit_at v (offset + i - offset) i (omega arith))

    written : (i : ℕ) → i < len → map_bit (bitslice_set m offset len v) (offset + i) ≡ bit v i
    written i h = bitslice_set_lem m offset len v fits (offset + i) ∙ in_slice i h

-- ===== src/Pdo/Slices.antt =====
-- soes/esc_coe.c: slices of a map of bits. COE_bitsliceGet, COE_bitsliceSet.
-- The map is the process data, a memory of bytes, read and written as little-endian words of 64 bits.
use Prim.Native.Nat.{bit_and, bit_or}
use soes.Base.{ℕ, ◌+◌, ◌-◌, ◌*◌, ◌/◌, ◌%◌, ltb, ◌==◌, if◌then◌else◌}
use soes.Base.Bits.{u64, complement, ◌<<<◌, ◌>>>◌}
use soes.Base.Memory.{Mem, load32, store32}

unfoldable pub load64 : Mem → ℕ → ℕ
load64 m i = load32 m i + 4294967296 * load32 m (i + 4)

unfoldable pub store64 : Mem → ℕ → ℕ → Mem
store64 m i v = store32 (store32 m i v) (i + 4) (v / 4294967296)

-- `bitmap[word]`.
unfoldable pub word_at : Mem → ℕ → ℕ
word_at m word = load64 m (8 * word)

unfoldable pub set_word : ℕ → ℕ → Mem → Mem
set_word word v m = store64 m (8 * word) v

-- `mask`.
unfoldable pub slice_mask : ℕ → ℕ
slice_mask len = if len == 64 then 18446744073709551615 else u64 ((1 <<< len) - 1)

-- COE_bitsliceGet.
unfoldable pub bitslice_get : Mem → (offset len : ℕ) → ℕ
bitslice_get m offset len =
    let word = offset / 64 in
    let b = offset % 64 in
    let w0 = word_at m word >>> b in
    let w1 = if ltb 64 (len + b) then word_at m (word + 1) <<< (64 - b) else 0 in
    bit_and (bit_or w1 w0) (slice_mask len)

-- `(w & ~mask) | (v & mask)`.
unfoldable pub merge : (w mask v : ℕ) → ℕ
merge w mask v = bit_or (bit_and w (complement mask)) (bit_and v mask)

-- COE_bitsliceSet.
unfoldable pub bitslice_set : Mem → (offset len value : ℕ) → Mem
bitslice_set m offset len value =
    let word = offset / 64 in
    let b = offset % 64 in
    let mask = slice_mask len in
    let m' = set_word word (merge (word_at m word) (mask <<< b) (value <<< b)) m in
    if ltb 64 (len + b)
    then set_word (word + 1)
        (merge (word_at m' (word + 1)) (mask >>> (64 - b)) (value >>> (64 - b))) m'
    else m'

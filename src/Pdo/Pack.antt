-- ===== src/Pdo/Pack.antt =====
-- soes/esc_coe.c: the copies between the mapped entries and the process data. COE_pdoPack, COE_pdoUnpack.
use soes.Base.{ℕ, ◌+◌, ◌/◌, Option, none, some, List, [], ◌∷◌, ltb, if◌then◌else◌, u32}
use soes.Base.Memory.{Mem}
use soes.Slave.{blit, Entry, Object, Mapping}
use soes.Pdo.{entry_at, object_at}
use soes.Pdo.Slices.{bitslice_get, bitslice_set}
use soes.Pdo.Values.{get_value, set_value}

-- `mappings[ix].obj`, none for NULL.
unfoldable pub entry_of : List Object → Mapping → Option Entry
entry_of objects x = elim x.obj [
  | none ↦ none
  | some at ↦ some (entry_at (object_at objects at.0).entries at.1)
]

-- The bytes of a value of `bitlength` bits.
unfoldable pub value_bytes : Entry → ℕ
value_bytes o = u32 (o.bitlength + 7) / 8

unfoldable pub pack_entry : Mem → (offset : ℕ) → Option Entry → Mem → Mem
pack_entry ram offset none buffer = buffer
pack_entry ram offset (some o) buffer =
    if ltb 64 o.bitlength
    then blit buffer (offset / 8) (value_bytes o) (λ j. ram (o.dataptr + j))
    else bitslice_set buffer offset o.bitlength (get_value ram o)

-- COE_pdoPack.
unfoldable pub pdo_pack : Mem → List Object → List Mapping → Mem → Mem
pdo_pack ram objects [] buffer = buffer
pdo_pack ram objects (x ∷ xs) buffer =
    pdo_pack ram objects xs (pack_entry ram x.offset (entry_of objects x) buffer)

unfoldable pub unpack_entry : Mem → (offset : ℕ) → Option Entry → Mem → Mem
unpack_entry buffer offset none ram = ram
unpack_entry buffer offset (some o) ram =
    if ltb 64 o.bitlength
    then blit ram o.dataptr (value_bytes o) (λ j. buffer (offset / 8 + j))
    else set_value o (bitslice_get buffer offset o.bitlength) ram

-- COE_pdoUnpack.
unfoldable pub pdo_unpack : Mem → List Object → List Mapping → Mem → Mem
pdo_unpack buffer objects [] ram = ram
pdo_unpack buffer objects (x ∷ xs) ram =
    pdo_unpack buffer objects xs (unpack_entry buffer x.offset (entry_of objects x) ram)

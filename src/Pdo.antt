-- ===== src/Pdo.antt =====
-- soes/esc_coe.c: the search in the object dictionary and the size of the process data. SDO_findsubindex,
-- SDO_findobject, sizeOfPDO.
pub mod Bounds
pub mod Slices
pub mod Values
pub mod Pack
pub mod Packing
pub mod Unpacking
pub mod Splicing
pub mod Slicing
use soes.Base.{
  ℕ, zero, suc, ◌+◌, ◌-◌, ◌*◌, ◌/◌, ◌%◌, Bool, true, false, not, ◌&&◌, ◌||◌, Option, none, some,
  List, [], ◌∷◌, ◌++◌, length, ◌==◌, ltb, leb, if◌then◌else◌, u8, u16, u32,
}
use soes.Base.Memory.{Mem, load8, load16, load32}
use soes.Slave.{Entry, Object, Mapping}

abbrev pub rx_pdo_objidx : ℕ
rx_pdo_objidx = 0x1c12

abbrev pub tx_pdo_objidx : ℕ
tx_pdo_objidx = 0x1c13

-- `objd[k]`. A position past the end reads as zeros, as do the entries of an object whose `objdesc` is NULL.
abbrev pub entry_at : List Entry → ℕ → Entry
entry_at [] k = record {
  subindex = 0;
  datatype = 0;
  bitlength = 0;
  flags = 0;
  name = [];
  value = 0;
  dataptr = 0;
}
entry_at (x ∷ xs) zero = x
entry_at (x ∷ xs) (suc k) = entry_at xs k

-- The end mark of the list of objects, whose `acName` and `objdesc` are NULL.
abbrev pub end_mark : Object
end_mark = record { index = 0xffff; objtype = 0xff; maxsub = 0xff; name = []; entries = [] }

-- `SDOobjects[k]`.
abbrev pub object_at : List Object → ℕ → Object
object_at [] k = end_mark
object_at (x ∷ xs) zero = x
object_at (x ∷ xs) (suc k) = object_at xs k

-- OBJ_VALUE_FETCH, for a variable of 8, 16 and 32 bits.
abbrev pub fetch8 : Mem → Entry → ℕ
fetch8 ram o = if o.dataptr == 0 then u8 o.value else load8 ram o.dataptr

abbrev pub fetch16 : Mem → Entry → ℕ
fetch16 ram o = if o.dataptr == 0 then u16 o.value else load16 ram o.dataptr

abbrev pub fetch32 : Mem → Entry → ℕ
fetch32 ram o = if o.dataptr == 0 then o.value else load32 ram o.dataptr

-- `while ((objd + n)->subindex < subindex && n < maxsub) n++;` with `rounds` = maxsub - n.
unfoldable pub seek_subindex : List Entry → (subindex rounds n : ℕ) → ℕ
seek_subindex objd subindex zero n = n
seek_subindex objd subindex (suc rounds) n =
    let rest = seek_subindex objd subindex rounds (n + 1) in
    if ltb (entry_at objd n).subindex subindex then rest else n

-- SDO_findsubindex.
unfoldable pub findsubindex : Object → ℕ → Option ℕ
findsubindex o subindex =
    let n = seek_subindex o.entries subindex o.maxsub 0 in
    if leb subindex o.maxsub && ((entry_at o.entries subindex).subindex == subindex)
    then some subindex
    else if (entry_at o.entries n).subindex == subindex
    then some n
    else none

-- SDO_findobject, on the list from position `n` on. After the list comes the end mark, at which the loop
-- of the source stops, and which is found for its own index. What the source then does is undefined.
unfoldable pub findobject_from : ℕ → List Object → ℕ → Option ℕ
findobject_from index [] n = if index == 0xffff then some n else none
findobject_from index (o ∷ os) n =
    let rest = findobject_from index os (n + 1) in
    if ltb o.index index then rest else if o.index == index then some n else none

unfoldable pub findobject : ℕ → List Object → Option ℕ
findobject index objects = findobject_from index objects 0

-- The running offset in bits and the mappings made so far, in order.
pub record Layout : Type 0 where
  pub offset : ℕ
  pub maps : List Mapping

-- The dictionary entry that a mapping value names: some none for padding, none if there is no
-- such entry.
unfoldable pub mapped_entry : List Object → ℕ → Option (Option (ℕ × ℕ))
mapped_entry objects value =
    let index = u16 (value / 65536) in
    let subindex = value / 256 % 256 in
    if (index == 0) && (subindex == 0) then some none else elim (findobject index objects) [
      | none ↦ none
      | some nidx ↦ elim (findsubindex (object_at objects nidx) subindex) [
        | none ↦ none
        | some nsub ↦ some (some (nidx, nsub))
      ]
    ]

-- What has been stored when a loop ends, or when it meets an invalid mapping.
pub data Filling : Type 0 where
  filled : Layout → Filling
  invalid : Layout → Filling

-- One mapping value.
unfoldable pub add_mapping : (max_mappings : ℕ) → List Object → (value : ℕ) → Layout → Filling
add_mapping max_mappings objects value l =
    let moved = u32 (l.offset + value % 256) in
    if max_mappings == 0
    then filled (record l { offset = moved })
    else if length l.maps == max_mappings
    then invalid l
    else elim (mapped_entry objects value) [
      | none ↦ invalid l
      | some obj ↦ filled (record {
        offset = moved;
        maps = l.maps ++ (record { obj = obj; offset = l.offset } ∷ []);
      })
    ]

-- The loop over the entries of one PDO, from entry `c`, `rounds` more.
unfoldable pub add_pdo :
    (max_mappings : ℕ) → Mem → List Object → List Entry → (rounds c : ℕ) → Layout → Filling
add_pdo max_mappings ram objects objd zero c l = filled l
add_pdo max_mappings ram objects objd (suc rounds) c l =
    elim (add_mapping max_mappings objects (fetch32 ram (entry_at objd c)) l) [
      | invalid l' ↦ invalid l'
      | filled l' ↦ add_pdo max_mappings ram objects objd rounds (c + 1) l'
    ]

-- The loop over the PDOs assigned to the SyncManager, from entry `sic`.
unfoldable pub add_pdos :
    (max_mappings : ℕ) → Mem → List Object → List Entry → (rounds sic : ℕ) → Layout → Filling
add_pdos max_mappings ram objects assigned zero sic l = filled l
add_pdos max_mappings ram objects assigned (suc rounds) sic l =
    elim (findobject (fetch16 ram (entry_at assigned sic)) objects) [
      | none ↦ add_pdos max_mappings ram objects assigned rounds (sic + 1) l
      | some nidx ↦
          elim (add_pdo max_mappings ram objects (object_at objects nidx).entries
            (fetch8 ram (entry_at (object_at objects nidx).entries 0)) 1 l) [
              | invalid l' ↦ invalid l'
              | filled l' ↦ add_pdos max_mappings ram objects assigned rounds (sic + 1) l'
            ]
    ]

-- What sizeOfPDO returns: the size in bytes, `*nmappings` (none for -1) and the mappings.
pub record PdoSize : Type 0 where
  pub bytes : ℕ
  pub nmappings : Option ℕ
  pub maps : List Mapping

-- `maps` are the mappings stored by this call; what the table held after them stays, and is not read.
unfoldable pub pdo_result : (max_mappings : ℕ) → Filling → PdoSize
pdo_result max_mappings (invalid l) = record { bytes = 0; nmappings = none; maps = l.maps }
pdo_result max_mappings (filled l) = record {
  bytes = u16 (u32 (l.offset + 7) / 8);
  nmappings = some (if max_mappings == 0 then 0 else length l.maps);
  maps = l.maps;
}

-- sizeOfPDO. `before` is what `*nmappings` held and `stored` the mappings; they stay when the
-- SyncManager has no object. The counts of at most 254 entries are meant: the source's 8-bit loop does not end at 255.
unfoldable pub size_of_pdo :
    (index : ℕ)
    → (before : Option ℕ) → (stored : List Mapping) → (max_mappings : ℕ) → Mem
    → List Object
    → PdoSize
size_of_pdo index before stored max_mappings ram objects =
    let kept : PdoSize = record { bytes = 0; nmappings = before; maps = stored } in
    if (index == rx_pdo_objidx) || (index == tx_pdo_objidx)
    then (elim (findobject index objects) [
      | none ↦ kept
      | some nidx ↦
          let assigned = (object_at objects nidx).entries in
          pdo_result max_mappings (
            add_pdos max_mappings ram objects assigned (fetch8 ram (entry_at assigned 0)) 1
              (record { offset = 0; maps = [] }))
    ])
    else kept

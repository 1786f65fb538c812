-- ===== src/Coe/Access.antt =====
-- soes/esc_coe.c: access rights, the search for the entry of a request, and the object handlers of
-- soes/ecat_slv.c. READ_ACCESS, WRITE_ACCESS, COE_maxSub, ESC_download_pre_objecthandler ...
use soes.Base.{
  ℕ, ◌+◌, ◌/◌, ◌%◌, Bool, not, ◌&&◌, ◌||◌, Option, none, some, List, ◌==◌, ltb, leb, if◌then◌else◌,
  has_bit, u32,
}
use soes.Base.Memory.{Mem}
use soes.Codes.{esc_preop, esc_safeop, esc_op}
use soes.Codes.Abort
use soes.Slave.{Object, M, pure, ◌>>=◌, gets, asks}
use mathlib.Core.Option.{map}
use soes.Pdo.{fetch8, entry_at, object_at, findobject, findsubindex, rx_pdo_objidx, tx_pdo_objidx}

-- BITS2BYTES
abbrev pub bits_to_bytes : ℕ → ℕ
bits_to_bytes b = u32 (b + 7) / 8

-- READ_ACCESS and WRITE_ACCESS, on the flags of an entry and ALstatus.
unfoldable pub read_access : (flags status : ℕ) → Bool
read_access flags status =
    let state = status % 16 in
    (has_bit flags 1 && (state == esc_preop))
    || (has_bit flags 2 && (state == esc_safeop))
    || (has_bit flags 4 && (state == esc_op))

unfoldable pub write_access : (flags status : ℕ) → Bool
write_access flags status =
    let state = status % 16 in
    (has_bit flags 8 && (state == esc_preop))
    || (has_bit flags 16 && (state == esc_safeop))
    || (has_bit flags 32 && (state == esc_op))

-- ATYPE_RO
abbrev pub atype_ro : ℕ
atype_ro = 7

-- COMPLETE_ACCESS_FLAG
abbrev pub complete_access_flag : ℕ
complete_access_flag = 32768

-- ESC_SDO_PENDING
abbrev pub sdo_pending_code : ℕ
sdo_pending_code = 0xFFFFFFFF

-- The result of SDO_findobject and SDO_findsubindex on a request: `found o nsub` is entry `nsub` of
-- object `o`.
pub data Located : Type 0 where
  no_object no_subindex : Located
  found : Object → ℕ → Located

unfoldable pub locate_sub : Object → ℕ → Located
locate_sub o subindex = elim (findsubindex o subindex) [
  | none ↦ no_subindex
  | some nsub ↦ found o nsub
]

unfoldable pub locate : (index subindex : ℕ) → List Object → Located
locate index subindex objects = elim (findobject index objects) [
  | none ↦ no_object
  | some nidx ↦ locate_sub (object_at objects nidx) subindex
]

-- The entry that a request for complete access starts with, or why it is refused.
pub data Target : Type 0 where
  refused : ℕ → Target
  target : Object → ℕ → Target

unfoldable pub to_target : Located → Target
to_target no_object = refused Abort.no_object
to_target no_subindex = refused Abort.no_subindex
to_target (found o nsub) = target o nsub

-- complete_access_get_variables
unfoldable pub complete_access_target : (index subindex : ℕ) → List Object → Target
complete_access_target index subindex objects =
    if ltb 1 subindex then refused Abort.unsupported else to_target (locate index subindex objects)

-- COE_maxSub
unfoldable pub max_sub : Mem → List Object → ℕ → ℕ
max_sub ram objects index = elim (findobject index objects) [
  | none ↦ 0
  | some nidx ↦ fetch8 ram (entry_at (object_at objects nidx).entries 0)
]

-- IS_RXPDO, IS_TXPDO and the objects of the assignments.
unfoldable pub is_mapping_object : ℕ → Bool
is_mapping_object index =
    (leb 0x1600 index && ltb index 0x1800)
    || (leb 0x1A00 index && ltb index 0x1C00)
    || (index == rx_pdo_objidx)
    || (index == tx_pdo_objidx)

-- The call of a hook, which may be absent: its answer, and what it leaves of the memory.
unfoldable pub call_hook : {A : Type 0} → A → Option (Mem → A × Mem) → M A
call_hook answer none e s = (answer, s)
call_hook answer (some hook) e s = ((hook s.ram).0, record s { ram = (hook s.ram).1 })

-- ESC_download_pre_objecthandler, with the data of the message.
unfoldable pub download_hook : (index subindex : ℕ) (content : List ℕ) (flags : ℕ) → M ℕ
download_hook index subindex content flags = do
  hook ← asks (λ e. e.sdo.pre_object_download_hook)
  call_hook 0 (map (λ h ram. h ram index subindex content flags) hook)

unfoldable pub download_pre : (index subindex : ℕ) (content : List ℕ) (flags : ℕ) → M ℕ
download_pre index subindex content flags = do
  let min_sub = if has_bit flags complete_access_flag then 1 else 0
  assigned ← gets (λ s. not (max_sub s.ram s.objects index == 0))
  if is_mapping_object index && ltb min_sub subindex && assigned
      then pure Abort.subindex0_not_zero
      else download_hook index subindex content flags

-- ESC_download_post_objecthandler
unfoldable pub download_post : (index subindex flags : ℕ) → M ℕ
download_post index subindex flags = do
  hook ← asks (λ e. e.sdo.post_object_download_hook)
  call_hook 0 (map (λ h ram. h ram index subindex flags) hook)

-- ESC_upload_pre_objecthandler: the abort code, and the size.
unfoldable pub upload_pre : (index subindex dataptr size flags : ℕ) → M (ℕ × ℕ)
upload_pre index subindex dataptr size flags = do
  hook ← asks (λ e. e.sdo.pre_object_upload_hook)
  call_hook (0, size) (map (λ h ram. h ram index subindex dataptr size flags) hook)

-- ESC_upload_post_objecthandler
unfoldable pub upload_post : (index subindex flags : ℕ) → M ℕ
upload_post index subindex flags = do
  hook ← asks (λ e. e.sdo.post_object_upload_hook)
  call_hook 0 (map (λ h ram. h ram index subindex flags) hook)

-- ===== src/Coe/Info.antt =====
-- soes/esc_coe.c: SDO information. SDO_infoerror, SDO_getodlist, SDO_getodlistcont, SDO_getod, SDO_geted.
use soes.Base.{
  ℕ, zero, suc, ◌+◌, ◌-◌, ◌*◌, ◌/◌, ◌%◌, ◌||◌, Option, none, some, List, [], ◌∷◌, length, ◌==◌, ltb,
  if◌then◌else◌, u8, u16, sub32,
}
use soes.Base.Memory.{Mem, load8, load16, store8, store16, store_low}
use soes.Codes.MbxType
use soes.Codes.Abort
use soes.Codes.Coe
use soes.Slave.{Entry, Object, Slave, M, ◌>>=◌, ◌>>◌, skip, gets, modify, set_mbx, set_mem}
use soes.Mailbox.{claimbuffer}
use soes.Pdo.{entry_at, object_at, findobject, findsubindex}
use soes.Coe.Reply.{queue, release_inbox}
use soes.Coe.Access.{Located, no_object, no_subindex, found, locate}
use soes.Coe.Subindices.{otype_var}
use soes.Coe.Upload.{mbx_data_size}

-- The information header at offset `base`, behind the mailbox header.
unfoldable pub info_header : (base opcode incomplete fragmentsleft : ℕ) → Mem → Mem
info_header base opcode incomplete fragmentsleft m =
    let m' =
      store16 (store_low m (base + 5) MbxType.canopen) (base + 6) (Coe.sdo_information * 4096) in
    store16 (store8 (store8 m' (base + 8) (opcode + 128 * incomplete)) (base + 9) 0) (base + 10)
      fragmentsleft

-- Buffer `n`: the change `f` of the memory, given the buffer's offset.
unfoldable pub fill : (n : ℕ) → (ℕ → Mem → Mem) → M (Unit {0})
fill n f = modify (λ s. set_mem (f (n * s.mbx.size)) s)

unfoldable pub infoerror_reply : (code base : ℕ) → Mem → Mem
infoerror_reply code base m =
    store16
      (store16 (info_header base Coe.info_error 0 0 (store16 m base Coe.header_size)) (base + 12)
        code)
      (base + 14) (code / 65536)

unfoldable pub sdo_infoerror : ℕ → M (Unit {0})
sdo_infoerror code = do
  n ← claimbuffer
  if n == 0 then skip else (do fill n (infoerror_reply code); queue n; release_inbox)

-- ODLISTSIZE: the bytes of indices in one message.
unfoldable pub odlist_size : Slave → ℕ
odlist_size s = sub32 s.mbx.mb1.sml 14 % 65536 / 2 * 2

-- The indices of the objects from position `i`, `rounds` of them, stored from offset `p`.
unfoldable pub store_indices : List Object → (p i rounds : ℕ) → Mem → Mem
store_indices objects p i zero m = m
store_indices objects p i (suc rounds) m =
    store_indices objects (p + 2) (i + 1) rounds (store16 m p (object_at objects i).index)

-- "number of objects request"
unfoldable pub count_reply : (entries base : ℕ) → Mem → Mem
count_reply entries base m =
    let m' =
      store16 (store16 (info_header base Coe.get_od_list_response 0 0 m) (base + 12) 0) (base + 14)
        entries in
    store16
      (store16 (store16 (store16 (store16 m' (base + 16) 0) (base + 18) 0) (base + 20) 0)
        (base + 22) 0)
      base 18

-- The first message of the list, with `n` indices.
unfoldable pub list_reply : List Object → (incomplete fragmentsleft n base : ℕ) → Mem → Mem
list_reply objects incomplete fragmentsleft n base m =
    let m' =
      store16 (info_header base Coe.get_od_list_response incomplete fragmentsleft m) (base + 12)
        1 in
    store16 (store_indices objects (base + 14) 0 n m') base (8 + n * 2)

unfoldable pub list_count : (n entries frags : ℕ) → M (Unit {0})
list_count n entries frags = do
  fill n (count_reply entries)
  modify (set_mbx (λ b. record b { frags = frags; fragsleft = sub32 frags 1 }))
  release_inbox
  queue n

-- The rest of the list follows: `ESCvar.xoe = MBXCOE + MBXODL`.
unfoldable pub continue_later : M (Unit {0})
continue_later = modify (set_mbx (λ b. record b { xoe = MbxType.canopen + MbxType.odl }))

unfoldable pub list_first : (n entries frags : ℕ) → M (Unit {0})
list_first n entries frags = do
  objects ← gets (λ s. s.objects)
  room ← gets odlist_size
  let more = ltb 1 frags
  modify (set_mbx (λ b. record b { frags = frags; fragsleft = sub32 frags 1 }))
  fill n (
      list_reply objects (if more then 1 else 0) (sub32 frags 1)
        (if more then room / 2 else entries))
  if more then continue_later else release_inbox
  queue n

unfoldable pub serve_list : (asked entries frags n : ℕ) → M (Unit {0})
serve_list asked entries frags n =
    if n == 0
    then skip
    else if asked == 0
    then list_count n entries frags
    else list_first n entries frags

unfoldable pub sdo_getodlist : M (Unit {0})
sdo_getodlist = do
  entries ← gets (λ s. u16 (length s.objects))
  modify (set_mbx (λ b. record b { entries = entries }))
  room ← gets odlist_size
  asked ← gets (λ s. load16 s.mem 12)
  let frags = sub32 (entries * 2 + room) 1 / room
  if ltb 1 asked
      then sdo_infoerror Abort.unsupported
      else do n ← claimbuffer; serve_list asked entries frags n

-- A further message of the list, with the objects from position `s` up to `n`.
unfoldable pub list_part : List Object → (incomplete fragmentsleft s n base : ℕ) → Mem → Mem
list_part objects incomplete fragmentsleft s n base m =
    store16
      (store_indices objects (base + 12) s (n - s)
        (info_header base Coe.get_od_list_response incomplete fragmentsleft m))
      base (u16 (6 + n * 2 + 131072 - s * 2))

unfoldable pub next_fragment : M (Unit {0})
next_fragment = modify (set_mbx (λ b. record b { fragsleft = sub32 b.fragsleft 1 }))

-- The first object of the next message, and whether another follows.
unfoldable pub list_start : Slave → ℕ
list_start s = u16 (sub32 s.mbx.frags s.mbx.fragsleft * (odlist_size s / 2))

unfoldable pub list_next : (n : ℕ) → M (Unit {0})
list_next n = do
  start ← gets list_start
  stop ←
      gets (λ s.
        if ltb 1 s.mbx.fragsleft then u16 (list_start s + odlist_size s / 2) else s.mbx.entries)
  part ← gets (λ s.
      list_part s.objects (if ltb 1 s.mbx.fragsleft then 1 else 0) (sub32 s.mbx.fragsleft 1) start
        stop)
  more ← gets (λ s. ltb 1 s.mbx.fragsleft)
  if more then skip else release_inbox
  next_fragment
  fill n part
  queue n

unfoldable pub sdo_getodlistcont : M (Unit {0})
sdo_getodlistcont = do n ← claimbuffer; if n == 0 then skip else list_next n

-- The names are meant to have less than 256 characters, since the source counts them in 8 bits.
-- A name of at most `room` characters from offset `p`, and its end.
unfoldable pub store_name : List ℕ → (p room : ℕ) → Mem → Mem
store_name [] p room m = store8 m p 0
store_name (c ∷ cs) p zero m = store8 m p c
store_name (c ∷ cs) p (suc room) m = store_name cs (p + 1) room (store8 m p c)

-- The number of characters that are stored.
unfoldable pub name_length : List ℕ → ℕ → ℕ
name_length [] room = 0
name_length (c ∷ cs) zero = 0
name_length (c ∷ cs) (suc room) = suc (name_length cs room)

-- OTYPE_ARRAY
abbrev pub otype_array : ℕ
otype_array = 8

-- The description of an object: its data type (subindex 0 exists) and its greatest subindex.
unfoldable pub described_type : Object → ℕ
described_type o =
    if (o.objtype == otype_var) || (o.objtype == otype_array)
    then (elim (findsubindex o 0) [ none ↦ 0 | some nsub ↦ (entry_at o.entries nsub).datatype ])
    else 0

unfoldable pub described_maxsub : Object → ℕ
described_maxsub o = if o.objtype == otype_var then o.maxsub else u8 (entry_at o.entries 0).value

unfoldable pub od_reply : (index room : ℕ) → Object → (base : ℕ) → Mem → Mem
od_reply index room o base m =
    let m1 = store16 (info_header base Coe.get_od_response 0 0 m) (base + 12) index in
    let m2 = store16 m1 (base + 14) (described_type o) in
    let m3 = store8 (store8 m2 (base + 16) (described_maxsub o)) (base + 17) o.objtype in
    store16 (store_name o.name (base + 18) room m3) base (12 + name_length o.name room)

unfoldable pub getod_found : (index : ℕ) → Object → M (Unit {0})
getod_found index o = do
  room ← gets (λ s. sub32 (mbx_data_size s) 12)
  n ← claimbuffer
  if n == 0 then skip else (do fill n (od_reply index room o); queue n; release_inbox)

unfoldable pub getod_at : (index : ℕ) → List Object → Option ℕ → M (Unit {0})
getod_at index objects none = sdo_infoerror Abort.no_object
getod_at index objects (some nidx) = getod_found index (object_at objects nidx)

unfoldable pub sdo_getod : M (Unit {0})
sdo_getod = do
  index ← gets (λ s. load16 s.mem 12)
  objects ← gets (λ s. s.objects)
  getod_at index objects (findobject index objects)

-- DTYPE_DOMAIN
abbrev pub domain : ℕ
domain = 15

unfoldable pub described_bitlength : Entry → ℕ
described_bitlength o = if (o.datatype == domain) || ltb 65535 o.bitlength then 0 else o.bitlength

unfoldable pub ed_reply : (index subindex room : ℕ) → Entry → (base : ℕ) → Mem → Mem
ed_reply index subindex room o base m =
    let m1 = store16 (info_header base Coe.entry_description_response 0 0 m) (base + 12) index in
    let m2 =
      store16 (store8 (store8 m1 (base + 14) subindex) (base + 15) 7) (base + 16) o.datatype in
    let m3 = store16 (store16 m2 (base + 18) (described_bitlength o)) (base + 20) o.flags in
    store16 (store_name o.name (base + 22) room m3) base (16 + name_length o.name room)

unfoldable pub geted_found : (index subindex : ℕ) → Entry → M (Unit {0})
geted_found index subindex o = do
  room ← gets (λ s. sub32 (mbx_data_size s) 16)
  n ← claimbuffer
  if n == 0 then skip else (do fill n (ed_reply index subindex room o); queue n; release_inbox)

unfoldable pub geted_located : (index subindex : ℕ) → Located → M (Unit {0})
geted_located index subindex no_object = sdo_infoerror Abort.no_object
geted_located index subindex no_subindex = sdo_infoerror Abort.no_subindex
geted_located index subindex (found o nsub) = geted_found index subindex (entry_at o.entries nsub)

unfoldable pub sdo_geted : M (Unit {0})
sdo_geted = do
  index ← gets (λ s. load16 s.mem 12)
  subindex ← gets (λ s. load8 s.mem 14)
  located ← gets (λ s. locate index subindex s.objects)
  geted_located index subindex located

-- ===== src/Coe/Upload.antt =====
-- soes/esc_coe.c: SDO_upload, SDO_upload_complete_access, SDO_uploadsegment.
use soes.Base.{
  ℕ, ◌+◌, ◌-◌, ◌*◌, ◌/◌, ◌%◌, Bool, ◌==◌, ltb, leb, if◌then◌else◌, has_bit, set_bit, u16, u32,
  sub32,
}
use soes.Base.Memory.{load8, load16, store8, store16}
use soes.Codes.{mbx_header_size}
use soes.Codes.MbxType
use soes.Codes.Abort
use soes.Codes.Coe
use soes.Slave.{
  Entry, Object, Slave, M, ◌>>=◌, ◌>>◌, pure, when, gets, asks, modify, set_mbx, set_mem, blit,
}
use soes.Mailbox.{claimbuffer}
use soes.Pdo.{entry_at}
use soes.Coe.Reply.{init_coesdo, set_size, queue, sdo_abort, release_inbox, set_state_idle}
use soes.Coe.Access.{
  bits_to_bytes, read_access, complete_access_flag, Located, no_object, no_subindex, found, locate,
  Target, refused, target, complete_access_target, upload_pre, upload_post,
}
use soes.Coe.Subindices.{complete_size, upload_all}

-- ESC_MBXDSIZE
abbrev pub mbx_data_size : Slave → ℕ
mbx_data_size s = sub32 s.mbx.size mbx_header_size

-- "expedited bits used calculation" of SDO_upload.
unfoldable pub dss : ℕ → ℕ
dss bits = if ltb 24 bits then 0 else if ltb 16 bits then 4 else if ltb 8 bits then 8 else 12

-- The same of SDO_upload_complete_access.
unfoldable pub complete_dss : ℕ → ℕ
complete_dss bits = if ltb 24 bits then 0 else u32 (4 * sub32 3 (sub32 bits 1 / 8)) % 256

-- The length in the mailbox header of buffer `n`.
unfoldable pub set_length : (n length : ℕ) → M (Unit {0})
set_length n length = modify (λ s. set_mem (λ m. store16 m (n * s.mbx.size) length) s)

-- copy2mbx from the application's memory, to offset `at` of buffer `n`.
unfoldable pub copy_out : (n at source size : ℕ) → M (Unit {0})
copy_out n at source size =
    modify (λ s. set_mem (λ m. blit m (n * s.mbx.size + at) size (λ j. s.ram (source + j))) s)

-- The post handler, unless segments follow; then the reply in buffer `n` is queued.
unfoldable pub finish_upload : (n index subindex flags : ℕ) → M (Unit {0})
finish_upload n index subindex flags = do
  segmented ← gets (λ s. s.mbx.segmented)
  code ← if segmented == 0 then upload_post index subindex flags else pure 0
  if code == 0 then (do queue n; release_inbox) else set_state_idle n index subindex code

-- "expedited response", after the pre handler gave `size`.
unfoldable pub fill_expedited : (n size : ℕ) → Entry → M (Unit {0})
fill_expedited n size o =
    if o.dataptr == 0 then set_size n o.value else copy_out n 12 o.dataptr size

-- "segmented transfer needed": the number of bytes that are sent now.
unfoldable pub start_segments : (dataptr flags : ℕ) → M ℕ
start_segments dataptr flags = do
  size ← gets (λ s. sub32 (mbx_data_size s) Coe.header_size)
  modify (
      set_mbx (λ b. record b {
        fragsleft = size;
        segmented = MbxType.seu;
        dataptr = dataptr;
        flags = flags;
      }))
  pure size

unfoldable pub no_segments : ℕ → M ℕ
no_segments size = do modify (set_mbx (λ b. record b { segmented = 0 })); pure size

abbrev pub needs_segments : ℕ → Slave → Bool
needs_segments size s = ltb (mbx_data_size s) (u32 (size + Coe.header_size))

-- "normal response", after the pre handler gave `size`.
unfoldable pub fill_normal : (n size : ℕ) → Entry → M (Unit {0})
fill_normal n size o = do
  modify (set_mbx (λ b. record b { frags = size }))
  set_size n size
  segments ← gets (needs_segments size)
  now ← if segments then start_segments o.dataptr o.flags else no_segments size
  set_length n (u16 (Coe.header_size + now))
  copy_out n 16 o.dataptr now

-- The reply in the claimed buffer `n`.
unfoldable pub upload_reply : (index subindex : ℕ) → Entry → (n : ℕ) → M (Unit {0})
upload_reply index subindex o n = do
  let size = bits_to_bytes o.bitlength
  let short = leb size 4
  init_coesdo n Coe.sdo_response (if short then 0x43 + dss o.bitlength else 0x41) index subindex
  answer ← upload_pre index subindex o.dataptr size o.flags
  if answer.0 == 0
      then (do
        if short then fill_expedited n (u32 (answer.1)) o else fill_normal n (u32 (answer.1)) o
        finish_upload n index subindex o.flags)
      else set_state_idle n index subindex (answer.0)

unfoldable pub upload_entry : (index subindex : ℕ) → Entry → M (Unit {0})
upload_entry index subindex o = do
  readable ← gets (λ s. read_access o.flags s.al.status)
  if readable
      then (do n ← claimbuffer; if n == 0 then release_inbox else upload_reply index subindex o n)
      else set_state_idle 0 index subindex Abort.write_only

unfoldable pub upload_located : (index subindex : ℕ) → Located → M (Unit {0})
upload_located index subindex no_object = do
  sdo_abort 0 index subindex Abort.no_object
  release_inbox
upload_located index subindex no_subindex = do
  sdo_abort 0 index subindex Abort.no_subindex
  release_inbox
upload_located index subindex (found o nsub) = upload_entry index subindex (entry_at o.entries nsub)

-- The index and the subindex of the message in the inbox.
abbrev pub index_in : Slave → ℕ
index_in s = load16 s.mem 9

abbrev pub subindex_in : Slave → ℕ
subindex_in s = load8 s.mem 11

unfoldable pub sdo_upload : M (Unit {0})
sdo_upload = do
  index ← gets index_in
  subindex ← gets subindex_in
  located ← gets (λ s. locate index subindex s.objects)
  upload_located index subindex located

-- "normal response", with the `size` bytes that have been gathered in ESCvar.mbxdata.
unfoldable pub complete_normal : (n mbxdata size : ℕ) → M (Unit {0})
complete_normal n mbxdata size = do
  set_size n size
  segments ← gets (needs_segments size)
  when segments (modify (set_mbx (λ b. record b { frags = size })))
  now ← if segments then start_segments mbxdata complete_access_flag else pure size
  set_length n (u16 (Coe.header_size + now))
  copy_out n 16 mbxdata now

unfoldable pub fill_complete : (n size : ℕ) → M (Unit {0})
fill_complete n size = do
  mbxdata ← asks (λ e. e.sdo.mbxdata)
  if leb size 4 then copy_out n 12 mbxdata size else complete_normal n mbxdata size

unfoldable pub send_complete : (n index subindex : ℕ) → Object → (nsub dss size : ℕ) → M (Unit {0})
send_complete n index subindex o nsub dss size = do
  mbxdata ← asks (λ e. e.sdo.mbxdata)
  modify (λ s. record s { ram = upload_all s.al.status mbxdata o nsub s.ram })
  init_coesdo n Coe.sdo_response (if leb size 4 then 0x53 + dss else 0x51) index subindex
  modify (set_mbx (λ b. record b { segmented = 0 }))
  fill_complete n size
  finish_upload n index subindex (set_bit (entry_at o.entries 0).flags complete_access_flag)

unfoldable pub upload_complete : (index subindex : ℕ) → Object → ℕ → (n : ℕ) → M (Unit {0})
upload_complete index subindex o nsub n = do
  let bits = complete_size o nsub
  let size = bits_to_bytes bits
  let objd = entry_at o.entries 0
  room ← asks (λ e. e.sdo.prealloc_factor * e.mbx_size)
  margin ← asks (λ e. e.sdo.prealloc_factor * Coe.header_size)
  if ltb 65535 size
      then set_state_idle n index subindex size
      else if ltb room (u32 (size + margin))
      then set_state_idle n index subindex Abort.ca_not_supported
      else do
        answer ←
            upload_pre index subindex objd.dataptr size (set_bit objd.flags complete_access_flag)
        if answer.0 == 0
            then send_complete n index subindex o nsub (complete_dss bits) (u32 (answer.1))
            else set_state_idle n index subindex (answer.0)

unfoldable pub upload_target : (index subindex : ℕ) → Target → M (Unit {0})
upload_target index subindex (refused code) = set_state_idle 0 index subindex code
upload_target index subindex (target o nsub) = do
  n ← claimbuffer
  if n == 0 then set_state_idle 0 index subindex 0 else upload_complete index subindex o nsub n

unfoldable pub sdo_upload_complete_access : M (Unit {0})
sdo_upload_complete_access = do
  index ← gets index_in
  subindex ← gets subindex_in
  wanted ← gets (λ s. complete_access_target index subindex s.objects)
  upload_target index subindex wanted

-- `coesdo->command & COE_TOGGLEBIT`
abbrev pub toggle_in : Slave → ℕ
toggle_in s = if has_bit (load8 s.mem 8) 16 then 16 else 0

unfoldable pub set_command : (n command : ℕ) → M (Unit {0})
set_command n command = modify (λ s. set_mem (λ m. store8 m (n * s.mbx.size + 8) command) s)

-- "more segmented transfer needed": the number of bytes that are sent now.
unfoldable pub middle_segment : ℕ → M ℕ
middle_segment n = do
  size ← gets (λ s. sub32 (mbx_data_size s) Coe.segment_header_size)
  modify (set_mbx (λ b. record b { fragsleft = u32 (b.fragsleft + size) }))
  set_length n (u16 (Coe.segment_header_size + size))
  pure size

-- "last segment"
unfoldable pub last_segment : (n command size : ℕ) → M ℕ
last_segment n command size = do
  modify (set_mbx (λ b. record b { segmented = 0; frags = 0; fragsleft = 0 }))
  set_command n (command + 1 + (if leb 7 size then 0 else (7 - size) * 2))
  set_length n (if leb 7 size then u16 (Coe.segment_header_size + size) else Coe.header_size)
  pure size

unfoldable pub finish_segment : (n offset index subindex now : ℕ) → M (Unit {0})
finish_segment n offset index subindex now = do
  source ← gets (λ s. s.mbx.dataptr)
  flags ← gets (λ s. s.mbx.flags)
  copy_out n 9 (source + offset) now
  finish_upload n index subindex flags

-- A segment from `offset`, with `size` bytes to go; `command` is the toggle bit.
unfoldable pub segment_reply : (n offset size command index subindex : ℕ) → M (Unit {0})
segment_reply n offset size command index subindex = do
  init_coesdo n Coe.sdo_response command index subindex
  more ← gets (λ s. ltb (mbx_data_size s) (u32 (size + Coe.segment_header_size)))
  now ← if more then middle_segment n else last_segment n command size
  finish_segment n offset index subindex now

unfoldable pub upload_segment : (n : ℕ) → M (Unit {0})
upload_segment n = do
  offset ← gets (λ s. s.mbx.fragsleft)
  size ← gets (λ s. sub32 s.mbx.frags s.mbx.fragsleft)
  command ← gets toggle_in
  index ← gets index_in
  subindex ← gets subindex_in
  segment_reply n offset size command index subindex

unfoldable pub sdo_uploadsegment : M (Unit {0})
sdo_uploadsegment = do n ← claimbuffer; if n == 0 then release_inbox else upload_segment n

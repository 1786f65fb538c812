-- ===== src/Coe/Download.antt =====
-- SDO_download of soes/esc_coe.c.
use soes.Base.{
  ℕ, ◌+◌, ◌-◌, ◌/◌, ◌%◌, Bool, true, not, ◌&&◌, ◌||◌, ◌==◌, ltb, leb, if◌then◌else◌, has_bit, sub32,
}
use soes.Base.Memory.{load8, load16, load32, bytes}
use soes.Codes.MbxType
use soes.Codes.Abort
use soes.Codes.Coe
use soes.Slave.{Entry, Slave, M, ◌>>=◌, ◌>>◌, pure, skip, when, gets, modify, set_mbx, blit}
use soes.Mailbox.{claimbuffer}
use soes.Pdo.{entry_at}
use soes.Coe.Reply.{sdo_abort, download_response, release_inbox, set_state_idle}
use soes.Coe.Access.{
  bits_to_bytes, write_access, atype_ro, sdo_pending_code, Located, no_object, no_subindex, found,
  locate, download_pre, download_post,
}
use soes.Coe.Subindices.{visible_string, octet_string, unicode_string}
use soes.Coe.Upload.{index_in, subindex_in}

-- COE_EXPEDITED_INDICATOR, the number of bytes, and where they are in the inbox.
abbrev pub is_expedited : Slave → Bool
is_expedited s = has_bit (load8 s.mem 8) 2

unfoldable pub stated_size : Slave → ℕ
stated_size s = if is_expedited s then 4 - load8 s.mem 8 / 4 % 4 else load32 s.mem 12 % 65536

abbrev pub data_at : Slave → ℕ
data_at s = if is_expedited s then 12 else 16

-- The bytes that the message itself has room for, `coesdo->mbxheader.length - COE_HEADERSIZE`.
abbrev pub room_in : Slave → ℕ
room_in s = sub32 (load16 s.mem 0) Coe.header_size

-- "may have flexible length"
unfoldable pub is_flexible : ℕ → Bool
is_flexible datatype =
    (datatype == octet_string)
    || (datatype == unicode_string)
    || (leb 0x260 datatype && leb datatype 0x263)

-- ABORT_TYPEMISMATCH: the size is not the entry's and its type does not allow that.
unfoldable pub mismatches : Entry → ℕ → Bool
mismatches o size =
    not (bits_to_bytes o.bitlength == size)
    && not (o.datatype == visible_string)
    && not (is_flexible o.datatype)

-- "pad with zeroes up to the maximum size of the entry"
unfoldable pub pad : Entry → ℕ → M (Unit {0})
pad o size = when (not (bits_to_bytes o.bitlength == size) && (o.datatype == visible_string)) (
    modify (λ s. record s {
      ram = blit s.ram (o.dataptr + size) (sub32 (bits_to_bytes o.bitlength) size) (λ j. 0);
    }))

-- Whether the rest of the data comes in segments.
unfoldable pub is_longer : ℕ → Slave → Bool
is_longer size s = ltb 4 size && ltb (room_in s) size

-- The application holds the reply back.
unfoldable pub hold : (index subindex size : ℕ) → M (Unit {0})
hold index subindex size = do
  longer ← gets (is_longer size)
  if longer
      then sdo_abort 0 index subindex Abort.general_error
      else modify (λ s. record s {
        sdo_held = record { active = true; index = index; subindex = subindex };
      })

-- The number of bytes that are stored now.
unfoldable pub expect_segments : (index subindex : ℕ) → Entry → M ℕ
expect_segments index subindex o = do
  size ← gets room_in
  modify (
      set_mbx (λ b. record b {
        segmented = MbxType.sed;
        dataptr = o.dataptr + size;
        index = index;
        subindex = subindex;
        flags = o.flags;
      }))
  pure size

-- copy2mbx from offset `at` of the inbox to the application's memory.
unfoldable pub copy_in : (to at size : ℕ) → M (Unit {0})
copy_in to at size = modify (λ s. record s { ram = blit s.ram to size (λ j. s.mem (at + j)) })

unfoldable pub respond : (index subindex : ℕ) → M ℕ
respond index subindex = do
  n ← claimbuffer
  if n == 0 then skip else download_response index subindex n
  pure n

-- The post handler, unless segments follow; its abort code replaces the reply in buffer `n`.
unfoldable pub finish_store : (index subindex flags n : ℕ) → M (Unit {0})
finish_store index subindex flags n = do
  segmented ← gets (λ s. s.mbx.segmented)
  code ← if segmented == 0 then download_post index subindex flags else pure 0
  when (not (code == 0)) (sdo_abort n index subindex code)

unfoldable pub whole_message : ℕ → M ℕ
whole_message size = do modify (set_mbx (λ b. record b { segmented = 0 })); pure size

unfoldable pub store : (index subindex : ℕ) → Entry → (size : ℕ) → M (Unit {0})
store index subindex o size = do
  at ← gets data_at
  longer ← gets (is_longer size)
  now ← if longer then expect_segments index subindex o else whole_message size
  copy_in o.dataptr at now
  n ← respond index subindex
  finish_store index subindex o.flags n

unfoldable pub download_answered : (index subindex : ℕ) → Entry → (size code : ℕ) → M (Unit {0})
download_answered index subindex o size code =
    if code == sdo_pending_code
    then hold index subindex size
    else if code == 0
    then store index subindex o size
    else sdo_abort 0 index subindex code

-- The pre handler, and what follows from its answer.
unfoldable pub qualify : (index subindex : ℕ) → Entry → (size : ℕ) → M (Unit {0})
qualify index subindex o size = do
  content ← gets (λ s. bytes s.mem (data_at s) size)
  code ← download_pre index subindex content o.flags
  download_answered index subindex o size code
  release_inbox

unfoldable pub download_sized : (index subindex : ℕ) → Entry → (size : ℕ) → M (Unit {0})
download_sized index subindex o size =
    if mismatches o size
    then set_state_idle 0 index subindex Abort.type_mismatch
    else do pad o size; qualify index subindex o size

unfoldable pub download_entry : (index subindex : ℕ) → Entry → M (Unit {0})
download_entry index subindex o = do
  writable ← gets (λ s. write_access o.flags s.al.status)
  size ← gets stated_size
  if writable then download_sized index subindex o size else do
    sdo_abort 0 index subindex
        (if o.flags % 64 == atype_ro then Abort.read_only else Abort.not_in_this_state)
    release_inbox

unfoldable pub download_located : (index subindex : ℕ) → Located → M (Unit {0})
download_located index subindex no_object = do
  sdo_abort 0 index subindex Abort.no_object
  release_inbox
download_located index subindex no_subindex = do
  sdo_abort 0 index subindex Abort.no_subindex
  release_inbox
download_located index subindex (found o nsub) =
    download_entry index subindex (entry_at o.entries nsub)

unfoldable pub sdo_download : M (Unit {0})
sdo_download = do
  index ← gets index_in
  subindex ← gets subindex_in
  located ← gets (λ s. locate index subindex s.objects)
  download_located index subindex located

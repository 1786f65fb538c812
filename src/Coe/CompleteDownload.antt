-- ===== src/Coe/CompleteDownload.antt =====
-- SDO_download_complete_access of soes/esc_coe.c.
use soes.Base.{ℕ, ◌+◌, ◌*◌, not, ◌==◌, ltb, if◌then◌else◌, set_bit, u32, sub32}
use soes.Base.Memory.{bytes}
use soes.Codes.MbxType
use soes.Codes.Abort
use soes.Codes.Coe
use soes.Slave.{Object, M, ◌>>=◌, ◌>>◌, skip, gets, asks, modify, blit}
use soes.Mailbox.{claimbuffer}
use soes.Pdo.{entry_at}
use soes.Coe.Reply.{queue_sdo, release_inbox, set_state_idle}
use soes.Coe.Access.{
  bits_to_bytes, complete_access_flag, sdo_pending_code, Target, refused, target,
  complete_access_target, download_pre, download_post,
}
use soes.Coe.Subindices.{complete_size, download_all}
use soes.Coe.Upload.{mbx_data_size, index_in, subindex_in}
use soes.Coe.Download.{stated_size, data_at}

-- The reply to a download with complete access.
unfoldable pub complete_response : (index subindex : ℕ) → M (Unit {0})
complete_response index subindex = do
  n ← claimbuffer
  if n == 0
      then skip
      else queue_sdo Coe.sdo_response (Coe.command_download_response + 16) index subindex 0 n
  release_inbox

-- A long message: its first part is stored in ESCvar.mbxdata.
unfoldable pub gather : (index subindex size : ℕ) → M (Unit {0})
gather index subindex size e s =
    let now = sub32 (mbx_data_size s) Coe.header_size in
    let stored = blit s.ram e.sdo.mbxdata now (λ j. s.mem (data_at s + j)) in
    (
      tt,
      record s {
        ram = stored;
        mbx = record (s.mbx) {
          frags = size;
          fragsleft = now;
          segmented = MbxType.sed;
          dataptr = e.sdo.mbxdata + now;
          index = index;
          subindex = subindex;
          flags = complete_access_flag;
        };
      },
    )

unfoldable pub store_first : (index subindex size : ℕ) → M (Unit {0})
store_first index subindex size = do
  room ← asks (λ e. e.sdo.prealloc_factor * e.mbx_size)
  margin ← asks (λ e. e.sdo.prealloc_factor * Coe.header_size)
  if ltb room (u32 (size + margin))
      then set_state_idle 0 index subindex Abort.ca_not_supported
      else do gather index subindex size; complete_response index subindex

-- A message that carries all the data.
unfoldable pub store_complete : (index subindex : ℕ) → Object → (nsub size : ℕ) → M (Unit {0})
store_complete index subindex o nsub size = do
  modify (λ s. record s {
    ram = download_all s.al.status size (λ j. s.mem (data_at s + j)) o nsub s.ram;
    mbx = record (s.mbx) { segmented = 0 };
  })
  code ← download_post index subindex (set_bit (entry_at o.entries 0).flags complete_access_flag)
  if code == 0 then complete_response index subindex else set_state_idle 0 index subindex code

-- The pre handler has answered.
unfoldable pub take_complete : (index subindex : ℕ) → Object → (nsub size code : ℕ) → M (Unit {0})
take_complete index subindex o nsub size code = do
  limit ← gets mbx_data_size
  if not (code == 0)
      then set_state_idle 0 index subindex
          (if code == sdo_pending_code then Abort.general_error else code)
      else if ltb limit (u32 (size + Coe.header_size))
      then store_first index subindex size
      else store_complete index subindex o nsub size

unfoldable pub download_complete : (index subindex : ℕ) → Object → (nsub size : ℕ) → M (Unit {0})
download_complete index subindex o nsub size = do
  let whole = bits_to_bytes (complete_size o nsub)
  let flags = set_bit (entry_at o.entries 0).flags complete_access_flag
  content ← gets (λ s. bytes s.mem (data_at s) whole)
  if ltb 65535 whole
      then set_state_idle 0 index subindex whole
      else if ltb whole size
      then set_state_idle 0 index subindex Abort.type_mismatch
      else do
        code ← download_pre index subindex content flags
        take_complete index subindex o nsub size code

unfoldable pub download_target : (index subindex : ℕ) → Target → (size : ℕ) → M (Unit {0})
download_target index subindex (refused code) size = set_state_idle 0 index subindex code
download_target index subindex (target o nsub) size = download_complete index subindex o nsub size

unfoldable pub sdo_download_complete_access : M (Unit {0})
sdo_download_complete_access = do
  index ← gets index_in
  subindex ← gets subindex_in
  wanted ← gets (λ s. complete_access_target index subindex s.objects)
  size ← gets stated_size
  download_target index subindex wanted size

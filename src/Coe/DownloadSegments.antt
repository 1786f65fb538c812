-- ===== src/Coe/DownloadSegments.antt =====
-- SDO_downloadsegment of soes/esc_coe.c.
use soes.Base.{ℕ, ◌+◌, ◌-◌, ◌/◌, ◌%◌, ◌==◌, ltb, if◌then◌else◌, has_bit, u32, sub32}
use soes.Base.Memory.{load8, load16}
use soes.Codes.Abort
use soes.Codes.Coe
use soes.Slave.{Slave, M, ◌>>=◌, ◌>>◌, gets, asks, modify, set_mbx}
use soes.Mailbox.{claimbuffer}
use soes.Coe.Reply.{init_coesdo, queue, release_inbox, set_state_idle}
use soes.Coe.Access.{complete_access_flag, Located, found, locate, download_post}
use soes.Coe.Subindices.{download_all}
use soes.Coe.Upload.{toggle_in}
use soes.Coe.Download.{copy_in}

-- The number of bytes of a segment.
unfoldable pub segment_size : Slave → ℕ
segment_size s =
    let size = sub32 (load16 s.mem 0) Coe.segment_header_size in
    if size == 7 then 7 - load8 s.mem 8 / 2 % 8 else size

-- The post handler after the last segment; `n` is the claimed buffer.
unfoldable pub end_segments : M (Unit {0})
end_segments = modify (set_mbx (λ b. record b { segmented = 0; frags = 0; fragsleft = 0 }))

unfoldable pub call_last : (n index subindex flags : ℕ) → M (Unit {0})
call_last n index subindex flags = do
  code ← download_post index subindex flags
  if code == 0 then (do queue n; release_inbox) else set_state_idle n index subindex code

unfoldable pub finish_download : (n : ℕ) → M (Unit {0})
finish_download n = do
  index ← gets (λ s. s.mbx.index)
  subindex ← gets (λ s. s.mbx.subindex)
  flags ← gets (λ s. s.mbx.flags)
  end_segments
  call_last n index subindex flags

-- The subindices from ESCvar.mbxdata, then the same.
unfoldable pub spread : (n : ℕ) → Located → M (Unit {0})
spread n (found o nsub) = do
  mbxdata ← asks (λ e. e.sdo.mbxdata)
  modify (λ s. record s {
    ram = download_all s.al.status s.mbx.frags (λ j. s.ram (mbxdata + j)) o nsub s.ram;
  })
  finish_download n
spread n _ = do
  index ← gets (λ s. s.mbx.index)
  subindex ← gets (λ s. s.mbx.subindex)
  set_state_idle 0 index subindex Abort.no_object

-- "copy download data to subindexes", if there are enough.
unfoldable pub finish_complete : (n size : ℕ) → M (Unit {0})
finish_complete n size = do
  index ← gets (λ s. s.mbx.index)
  subindex ← gets (λ s. s.mbx.subindex)
  short ← gets (λ s. ltb (u32 (s.mbx.fragsleft + size)) s.mbx.frags)
  located ← gets (λ s. locate index subindex s.objects)
  if short then set_state_idle 0 index subindex Abort.type_mismatch else spread n located

-- "more segmented transfer needed"
unfoldable pub expect_more : (n size : ℕ) → M (Unit {0})
expect_more n size = do
  modify
      (set_mbx (λ b. record b { dataptr = b.dataptr + size; fragsleft = u32 (b.fragsleft + size) }))
  queue n
  release_inbox

-- What follows the copy of a segment.
unfoldable pub after_segment : (n size : ℕ) → M (Unit {0})
after_segment n size = do
  last ← gets (λ s. has_bit (load8 s.mem 8) 1)
  complete ← gets (λ s. s.mbx.flags == complete_access_flag)
  if last
      then (if complete then finish_complete n size else finish_download n)
      else expect_more n size

unfoldable pub copy_segment : (size : ℕ) → M (Unit {0})
copy_segment size = do to ← gets (λ s. s.mbx.dataptr); copy_in to 9 size

unfoldable pub download_segment : (n : ℕ) → M (Unit {0})
download_segment n = do
  size ← gets segment_size
  toggle ← gets toggle_in
  init_coesdo n Coe.sdo_response (Coe.command_download_seg_resp + toggle) 0 0
  copy_segment size
  after_segment n size

unfoldable pub sdo_downloadsegment : M (Unit {0})
sdo_downloadsegment = do n ← claimbuffer; if n == 0 then release_inbox else download_segment n

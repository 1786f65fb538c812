-- ===== src/Coe/Process.antt =====
-- soes/esc_coe.c: ESC_coeprocess.
use soes.Base.{ℕ, ◌+◌, ◌-◌, ◌*◌, ◌/◌, ◌%◌, ◌&&◌, ◌==◌, ltb, if◌then◌else◌, has_bit}
use soes.Base.Memory.{load8, load16, load_low}
use soes.Codes.MbxErr
use soes.Codes.MbxType
use soes.Codes.Abort
use soes.Codes.Coe
use soes.Slave.{Slave, M, ◌>>=◌, ◌>>◌, skip, when, gets, modify, set_mbx}
use soes.Mailbox.{is_inclaim, mbx_error}
use soes.Coe.Reply.{sdo_abort, release_inbox}
use soes.Coe.Upload.{sdo_upload, sdo_upload_complete_access, sdo_uploadsegment}
use soes.Coe.Download.{sdo_download}
use soes.Coe.CompleteDownload.{sdo_download_complete_access}
use soes.Coe.DownloadSegments.{sdo_downloadsegment}
use soes.Coe.Info.{sdo_getodlist, sdo_getodlistcont, sdo_getod, sdo_geted}

abbrev pub service_in : Slave → ℕ
service_in s = load16 s.mem 6 / 4096

abbrev pub command_in : Slave → ℕ
command_in s = load8 s.mem 8

abbrev pub length_in : Slave → ℕ
length_in s = load16 s.mem 0

-- SDO_COMMAND, `command & 0xe0`.
abbrev pub command_kind : ℕ → ℕ
command_kind command = command / 32 * 32

-- What an SDO request asks for; none if no branch takes it.
pub data Request : Type 0 where
  upload_req complete_upload_req upload_segment_req : Request
  download_req complete_download_req download_segment_req : Request
  unknown_req : Request

unfoldable pub request_in : Slave → Request
request_in s =
    let command = command_in s in
    let whole = length_in s == Coe.header_size in
    let complete = has_bit command 16 in
    if (command_kind command == Coe.command_upload_request) && whole
    then (if complete then complete_upload_req else upload_req)
    else if (((if complete then command - 16 else command) == Coe.command_upload_seg_req)
        && whole
        && (s.mbx.segmented == MbxType.seu))
    then upload_segment_req
    else if command_kind command == Coe.command_download_request
    then (if complete then complete_download_req else download_req)
    else if command_kind command == Coe.command_download_seg_req
    then download_segment_req
    else unknown_req

unfoldable pub serve : Request → M (Unit {0})
serve upload_req = sdo_upload
serve complete_upload_req = sdo_upload_complete_access
serve upload_segment_req = sdo_uploadsegment
serve download_req = sdo_download
serve complete_download_req = sdo_download_complete_access
serve download_segment_req = sdo_downloadsegment
serve unknown_req = skip

-- A request while a reply is held back.
unfoldable pub in_work : M (Unit {0})
in_work = do mbx_error MbxErr.service_in_work; release_inbox

-- "COE not recognised above"
unfoldable pub not_recognised : M (Unit {0})
not_recognised = do
  service ← gets service_in
  index ← gets (λ s. load16 s.mem 9)
  subindex ← gets (λ s. load8 s.mem 11)
  if service == 0
      then mbx_error MbxErr.invalid_header
      else sdo_abort 0 index subindex Abort.unsupported
  release_inbox

abbrev pub opcode_in : Slave → ℕ
opcode_in s = load8 s.mem 8 % 128

unfoldable pub serve_information : M (Unit {0})
serve_information = do
  opcode ← gets opcode_in
  if opcode == 1
      then sdo_getodlist
      else if opcode == 3
      then sdo_getod
      else if opcode == 5
      then sdo_geted
      else not_recognised

unfoldable pub serve_request : M (Unit {0})
serve_request = do
  held ← gets (λ s. s.sdo_held.active)
  request ← gets request_in
  if held then in_work else serve request

-- ESC_coeprocess, the message having been taken.
unfoldable pub process_taken : M (Unit {0})
process_taken = do
  service ← gets service_in
  if service == Coe.sdo_request
      then serve_request
      else if service == Coe.sdo_information
      then serve_information
      else not_recognised

-- A message for CoE in the inbox is taken.
unfoldable pub take_coe : M (Unit {0})
take_coe = do
  now ←
      gets
        (λ s. (s.mbx.xoe == 0) && is_inclaim (s.control 0) && (load_low s.mem 5 == MbxType.canopen))
  short ← gets (λ s. ltb (length_in s) Coe.minimum_length)
  when now (
      if short
      then mbx_error MbxErr.invalid_size
      else modify (set_mbx (λ b. record b { xoe = MbxType.canopen })))

-- "continue get OD list"
unfoldable pub continue_list : M (Unit {0})
continue_list = do
  now ← gets (λ s. (s.mbx.xoe == MbxType.canopen + MbxType.odl) && (s.mbx.posted == 0))
  when now sdo_getodlistcont

unfoldable pub dispatch : M (Unit {0})
dispatch = do taken ← gets (λ s. s.mbx.xoe == MbxType.canopen); when taken process_taken

unfoldable pub coeprocess : M (Unit {0})
coeprocess = do
  run ← gets (λ s. s.mbx.run)
  if run then (do take_coe; continue_list; dispatch) else skip

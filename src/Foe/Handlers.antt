-- ===== src/Foe/Handlers.antt =====
-- soes/esc_foe.c: the handlers of the operations, and ESC_foeprocess.
use soes.Base.{ℕ, ◌+◌, Bool, true, false, not, ◌&&◌, ◌==◌, ltb, leb, if◌then◌else◌, u8, u32, sub32}
use soes.Base.Memory.{load8, load16, load32, load_low}
use soes.Codes.{foe_header_size}
use soes.Codes.MbxErr
use soes.Codes.MbxType
use soes.Codes.FoeErr
use soes.Codes.FoeOp
use soes.Slave.{
  FoeState, ready, wait_for_ack, wait_for_final_ack, wait_for_data, idle, Slave, M, ◌>>=◌, ◌>>◌,
  when, gets, asks, modify, set_foe, set_mbx, set_control,
}
use soes.Mailbox.{is_inclaim}
use soes.Foe.File.{Request, rrq, wrq, fopen, fwrite, fclose, init}
use soes.Foe.Reply.{abort, send_ack, send_data_packet, foe_data_size}

abbrev pub is_ready : FoeState → Bool
is_ready ready = true
is_ready _ = false

abbrev pub awaits_ack : FoeState → Bool
awaits_ack wait_for_ack = true
awaits_ack _ = false

abbrev pub awaits_final_ack : FoeState → Bool
awaits_final_ack wait_for_final_ack = true
awaits_final_ack _ = false

abbrev pub awaits_data : FoeState → Bool
awaits_data wait_for_data = true
awaits_data _ = false

abbrev pub set_state : FoeState → M (Unit {0})
set_state v = modify (set_foe (λ f. record f { state = v }))

-- The length of what follows the FoE header of the request in buffer 0.
abbrev pub request_length : Slave → ℕ
request_length s = sub32 (load16 s.mem 0) foe_header_size

-- FOE_fopen on the request in buffer 0.
unfoldable pub open_request : Request → M ℕ
open_request op e s =
    let (res, f) =
      fopen e.foe s.mem 12 (u8 (request_length s)) (load32 s.mem 8) s.al.status op s.foe in
    (res, set_foe (λ _. f) s)

unfoldable pub foe_read : M (Unit {0})
foe_read = do
  state ← gets (λ s. s.foe.state)
  if is_ready state
      then (do
        modify (set_foe init)
        res ← open_request rrq
        if res == 0
            then (do
              modify (set_foe (λ f. record f { packet = 1 }))
              sent ← send_data_packet
              size ← gets foe_data_size
              if leb sent size then set_state wait_for_ack else abort sent)
            else abort res)
      else abort FoeErr.illegal

unfoldable pub foe_ack : M (Unit {0})
foe_ack = do
  state ← gets (λ s. s.foe.state)
  if awaits_final_ack state
      then modify (set_foe init)
      else if awaits_ack state
      then (do
        res ← send_data_packet
        size ← gets foe_data_size
        if ltb res size
            then set_state wait_for_final_ack
            else when (leb FoeErr.not_defined res) (abort FoeErr.prog_error))
      else abort FoeErr.illegal

unfoldable pub foe_write : M (Unit {0})
foe_write = do
  state ← gets (λ s. s.foe.state)
  if is_ready state
      then (do
        modify (set_foe init)
        res ← open_request wrq
        if res == 0
            then (do sent ← send_ack; if sent == 0 then set_state wait_for_data else abort sent)
            else abort res)
      else abort FoeErr.illegal

-- FOE_fwrite and FOE_fclose on the slave's state.
unfoldable pub write_data : ℕ → M ℕ
write_data length e s =
    let (ncopied, f) = fwrite e.foe s.mem 12 length s.foe in (ncopied, set_foe (λ _. f) s)

unfoldable pub close : M Bool
close e s = let (failed, f) = fclose e.foe s.foe in (failed, set_foe (λ _. f) s)

-- The acknowledgement and the end of a transfer; the acknowledgement's result is not used.
unfoldable pub complete : M (Unit {0})
complete = do res ← send_ack; modify (set_foe init)

-- "data_len == ESC_FOE_DATA_SIZE": a packet that another one follows.
unfoldable pub full_packet : (ncopied data_len : ℕ) → M (Unit {0})
full_packet ncopied data_len = do
  when (not (ncopied == data_len)) (abort FoeErr.prog_error)
  res ← send_ack
  when (not (res == 0)) (abort res)

-- The last packet.
unfoldable pub short_packet : (ncopied data_len : ℕ) → M (Unit {0})
short_packet ncopied data_len =
    if ncopied == data_len
    then (do failed ← close; if failed then abort FoeErr.prog_error else complete)
    else abort FoeErr.prog_error

unfoldable pub take_data : ℕ → M (Unit {0})
take_data data_len = do
  ncopied ← write_data data_len
  size ← gets foe_data_size
  if ncopied == 0
      then abort FoeErr.prog_error
      else if data_len == size
      then full_packet ncopied data_len
      else short_packet ncopied data_len

unfoldable pub foe_data : M (Unit {0})
foe_data = do
  f ← gets (λ s. s.foe)
  data_len ← gets request_length
  packet ← gets (λ s. load32 s.mem 8)
  if awaits_data f.state
      then (if packet == f.packet
          then (if data_len == 0
              then (do failed ← close; complete)
              else if ltb f.fend (u32 (f.fposition + data_len))
              then abort FoeErr.disk_full
              else take_data data_len)
          else abort FoeErr.packet_no)
      else abort FoeErr.illegal

unfoldable pub foe_busy : M (Unit {0})
foe_busy = do
  state ← gets (λ s. s.foe.state)
  if awaits_ack state
      then (do
        modify (set_foe (λ f. record f { fposition = f.fprevposition; packet = sub32 f.packet 1 }))
        foe_ack)
      else abort FoeErr.illegal

unfoldable pub foe_error : M (Unit {0})
foe_error = abort 0

-- The `switch` on the operation. Without FOE_READ_SUPPORTED the read operations are unknown.
unfoldable pub dispatch : Bool → ℕ → M (Unit {0})
dispatch read_supported opcode =
    if opcode == FoeOp.wrq
    then foe_write
    else if opcode == FoeOp.dat
    then foe_data
    else if read_supported && (opcode == FoeOp.rrq)
    then foe_read
    else if read_supported && (opcode == FoeOp.ack)
    then foe_ack
    else if read_supported && (opcode == FoeOp.busy)
    then foe_busy
    else if opcode == FoeOp.err
    then foe_error
    else abort FoeErr.not_defined

-- A FoE message in the inbox starts FoE processing.
unfoldable pub take_over : M (Unit {0})
take_over = do
  waits ← gets (λ s. (s.mbx.xoe == 0) && is_inclaim (s.control 0))
  foe ← gets (λ s. load_low s.mem 5 == MbxType.foe)
  when (waits && foe) (modify (set_mbx (λ b. record b { xoe = MbxType.foe })))

unfoldable pub handle : M (Unit {0})
handle = do
  length ← gets (λ s. load16 s.mem 0)
  opcode ← gets (λ s. load8 s.mem 6)
  read_supported ← asks (λ e. e.foe.read_supported)
  if ltb length foe_header_size then abort MbxErr.size_too_short else dispatch read_supported opcode

-- The inbox is free for the next message.
unfoldable pub release : M (Unit {0})
release = do modify (set_control 0 idle); modify (set_mbx (λ b. record b { xoe = 0 }))

unfoldable pub process_taken : M (Unit {0})
process_taken = do xoe ← gets (λ s. s.mbx.xoe); when (xoe == MbxType.foe) (do handle; release)

unfoldable pub foeprocess : M (Unit {0})
foeprocess = do run ← gets (λ s. s.mbx.run); when run (do take_over; process_taken)

-- ===== src/Foe/Reply.antt =====
-- soes/esc_foe.c: the replies. FOE_abort, FOE_send_data_packet, FOE_send_ack.
use soes.Base.{ℕ, ◌+◌, ◌*◌, not, ◌==◌, if◌then◌else◌, u16, u32, sub32}
use soes.Base.Memory.{Mem, store8, store16, store32, store_low}
use soes.Codes.{mbx_header_size, foe_header_size}
use soes.Codes.MbxType
use soes.Codes.FoeErr
use soes.Codes.FoeOp
use soes.Slave.{
  outreq, Slave, M, ◌>>=◌, ◌>>◌, pure, skip, when, modify, set_foe, set_mem, set_control,
}
use soes.Mailbox.{claimbuffer}
use soes.Foe.File.{fread, init}

-- A FoE header at offset `base`: the length of what follows the mailbox header, the operation and
-- the 32-bit field (packet number or error code).
unfoldable pub reply_header : (base length opcode field : ℕ) → Mem → Mem
reply_header base length opcode field m =
    store32 (store8 (store_low (store16 m base length) (base + 5) MbxType.foe) (base + 6) opcode)
      (base + 8) field

-- Buffer `n` is queued with that header.
unfoldable pub queue_reply : (n length opcode field : ℕ) → M (Unit {0})
queue_reply n length opcode field =
    modify
      (λ s. set_control n outreq (set_mem (reply_header (n * s.mbx.size) length opcode field) s))

unfoldable pub abort_reply : ℕ → M (Unit {0})
abort_reply code = do
  n ← claimbuffer
  if n == 0 then skip else queue_reply n foe_header_size FoeOp.err code

unfoldable pub abort : ℕ → M (Unit {0})
abort code = do when (not (code == 0)) (abort_reply code); modify (set_foe init)

-- ESC_FOE_DATA_SIZE.
abbrev pub foe_data_size : Slave → ℕ
foe_data_size s = sub32 s.mbx.size (mbx_header_size + foe_header_size)

-- The packet number is taken and counted up.
unfoldable pub next_packet : M ℕ
next_packet e s = (s.foe.packet, set_foe (λ f. record f { packet = u32 (f.packet + 1) }) s)

unfoldable pub queue_ack : ℕ → M ℕ
queue_ack n = do packet ← next_packet; queue_reply n foe_header_size FoeOp.ack packet; pure 0

unfoldable pub send_ack : M ℕ
send_ack = do n ← claimbuffer; if n == 0 then pure FoeErr.prog_error else queue_ack n

-- The data bytes of buffer `n` are filled from the file buffer.
unfoldable pub fill_data : ℕ → M ℕ
fill_data n e s =
    let (copied, m, f) = fread (foe_data_size s) (n * s.mbx.size + 12) 0 s.mem s.foe in
    (copied, record s { mem = m; foe = f })

unfoldable pub queue_data : ℕ → M ℕ
queue_data n = do
  data_len ← fill_data n
  packet ← next_packet
  queue_reply n (u16 (data_len + foe_header_size)) FoeOp.dat packet
  pure data_len

unfoldable pub send_data_packet : M ℕ
send_data_packet = do n ← claimbuffer; if n == 0 then pure FoeErr.prog_error else queue_data n

-- ===== src/Mailbox/Transfer.antt =====
-- soes/esc.c: ESC_mbxprocess, the mailbox protocol step by step, ESC_xoeprocess, and ESC_stopmbx.
use soes.Base.{
  ℕ, zero, suc, ◌-◌, Bool, true, false, not, ◌&&◌, ◌||◌, ◌==◌, ltb, if◌then◌else◌, has_bit,
  clear_bit, sub32,
}
use soes.Base.Memory.{load16, load_low, load_high}
use soes.Codes.{mbx_header_size}
use soes.Codes.Event
use soes.Codes.MbxErr
use soes.Slave.{
  MbxState, idle, outpost, backup, again, Slave, M, ◌>>=◌, ◌>>◌, pure, when, gets, asks, modify,
  set_mbx, set_control, set_sm,
}
use soes.Bus.{sm_status, sm_write_pdi, sm_enable, sm_disable, ec_rep, mbx_stat, set_pdi_rep}
use soes.Mailbox.Buffers.{
  is_idle, is_again, is_inclaim, outreqbuffer, mbx_error, readmbx, writembx, ackmbxread,
}

-- The state change when the master has read the posted buffer: the old backup is disposed of
-- and the posted buffer becomes the backup.
unfoldable pub dispose_backup : M (Unit {0})
dispose_backup = do
  kept ← gets (λ s. s.mbx.kept)
  when (not (kept == 0)) (modify (set_control kept idle))

unfoldable pub rotate_backup : M (Unit {0})
rotate_backup = do
  posted ← gets (λ s. s.mbx.posted)
  modify (set_control posted backup)
  modify (set_mbx (λ b. record b { kept = posted; posted = 0 }))

-- "outmbx read by master".
unfoldable pub read_by_master : M ℕ
read_by_master = do
  ackmbxread
  dispose_backup
  resend ← gets (λ s. is_again (s.control s.mbx.posted))
  posted ← gets (λ s. s.mbx.posted)
  when resend (writembx posted)
  rotate_backup
  xoe ← gets (λ s. s.mbx.xoe)
  pure (if xoe == 0 then 0 else 1)

-- The acknowledgement of a repeat request through PDIrep.
unfoldable pub ack_repeat : M (Unit {0})
ack_repeat = do
  modify (λ s. set_mbx (λ b. record b { toggle = ec_rep (s.sm 1) }) s)
  modify (λ s. set_sm 1 (set_pdi_rep s.mbx.toggle) s)
  sm_write_pdi 1

-- "repeat request", with something to repeat.
unfoldable pub repeat : M (Unit {0})
repeat = do
  posted ← gets (λ s. s.mbx.posted)
  kept ← gets (λ s. s.mbx.kept)
  if posted == 0
      then writembx kept
      else do sm_disable 1; modify (set_control posted again); sm_enable 1; writembx kept
  ack_repeat

unfoldable pub repeat_request : M ℕ
repeat_request = do
  something ← gets (λ s. not (s.mbx.posted == 0) || not (s.mbx.kept == 0))
  when something repeat
  pure 0

-- Buffer `n` is posted.
unfoldable pub post : ℕ → M (Unit {0})
post n = do
  writembx n
  sm_status 1
  modify (set_control n outpost)
  modify (set_mbx (λ b. record b { posted = n }))
  modify (set_mbx (λ b. record b { txcue = if b.txcue == 0 then 0 else b.txcue - 1 }))

-- "if the outmailbox is free check if we have something to send".
abbrev pub can_send : Slave → Bool
can_send s = not (s.mbx.txcue == 0) && (s.mbx.free || (mbx_stat (s.sm 1) == 0))

unfoldable pub send_queued : M (Unit {0})
send_queued = do now ← gets can_send; when now (do n ← outreqbuffer; when (not (n == 0)) (post n))

-- "read mailbox if full and no xoe in progress": the tests on what was read.
unfoldable pub drop_invalid : M (Unit {0})
drop_invalid = do
  length ← gets (λ s. load16 s.mem 0)
  sml ← gets (λ s. s.mbx.mb0.sml)
  when ((length == 0) || ltb (sub32 sml mbx_header_size) length)
      (do mbx_error MbxErr.invalid_header; modify (set_control 0 idle))

unfoldable pub drop_repeated : M (Unit {0})
drop_repeated = do
  cnt ← gets (λ s. load_high s.mem 5)
  incnt ← gets (λ s. s.mbx.incnt)
  when (not (cnt == 0) && (cnt == incnt)) (modify (set_control 0 idle))
  modify (set_mbx (λ b. record b { incnt = cnt }))

abbrev pub can_receive : Slave → Bool
can_receive s =
    not (mbx_stat (s.sm 0) == 0) && is_idle (s.control 0) && (s.mbx.posted == 0) && (s.mbx.xoe == 0)

unfoldable pub receive : M ℕ
receive = do
  now ← gets can_receive
  if now
      then (do
        readmbx
        modify (set_sm 0 (λ r. record r { status = clear_bit r.status 8 }))
        drop_invalid
        drop_repeated
        pure 1)
      else pure 0

-- What ESC_mbxprocess does once the mailboxes run and the SyncManager status is fresh.
abbrev pub was_read : Slave → Bool
was_read s = not (s.mbx.posted == 0) && has_bit s.io.al_event Event.sm1

abbrev pub is_repeated : Slave → Bool
is_repeated s = not (ec_rep (s.sm 1) == s.mbx.toggle)

unfoldable pub mbx_step : M ℕ
mbx_step = do
  read ← gets was_read
  repeated ← gets is_repeated
  if read then read_by_master else if repeated then repeat_request else (do send_queued; receive)

unfoldable pub refresh_status : M (Unit {0})
refresh_status = do
  event ← gets (λ s. has_bit s.io.al_event Event.sm0 || has_bit s.io.al_event Event.sm1)
  when event (do sm_status 0; sm_status 1)

unfoldable pub mbxprocess : M ℕ
mbxprocess = do run ← gets (λ s. s.mbx.run); if run then (do refresh_status; mbx_step) else pure 0

unfoldable pub xoeprocess : M (Unit {0})
xoeprocess = do
  unhandled ← gets (λ s. s.mbx.run && (s.mbx.xoe == 0) && is_inclaim (s.control 0))
  bad ← gets (λ s. (load_low s.mem 5 == 0) || (load16 s.mem 0 == 0))
  when unhandled (do
    mbx_error (if bad then MbxErr.invalid_header else MbxErr.unsupported_protocol)
    modify (set_control 0 idle))

-- MBXcontrol[n].state = MBXstate_idle for every n below `k`.
unfoldable pub all_idle : ℕ → (ℕ → MbxState) → ℕ → MbxState
all_idle zero control j = control j
all_idle (suc k) control j = if k == j then idle else all_idle k control j

unfoldable pub stopmbx : M (Unit {0})
stopmbx = do
  modify (set_mbx (λ b. record b { run = false }))
  sm_disable 0
  sm_disable 1
  buffers ← asks (λ e. e.buffers)
  modify (λ s. record s { control = all_idle buffers s.control })
  modify (
      set_mbx (λ b. record b {
        posted = 0;
        kept = 0;
        xoe = 0;
        free = true;
        toggle = 0;
        incnt = 0;
        segmented = 0;
        frags = 0;
        fragsleft = 0;
        txcue = 0;
        index = 0;
        subindex = 0;
        flags = 0;
      }))
  modify (λ s. record s { sdo_held = record (s.sdo_held) { active = false } })

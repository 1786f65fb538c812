-- ===== src/Mailbox/Buffers.antt =====
-- soes/esc.c: the local mailbox buffers. ESC_claimbuffer, ESC_outreqbuffer, MBX_error,
-- ESC_readmbx, ESC_writembx, ESC_ackmbxread.
use soes.Base.{
  ℕ, ◌+◌, ◌-◌, ◌*◌, ◌%◌, Bool, true, false, [], ◌∷◌, ◌==◌, ltb, if◌then◌else◌, u8, u16, sub32,
}
use soes.Base.Memory.{Mem, load16, store8, store16, store_low, store_high, bytes}
use soes.Base.Order.{scan_down}
use soes.Codes.{mbx_header_size}
use soes.Codes.MbxType
use soes.Slave.{
  MbxState, idle, inclaim, outclaim, outreq, again, Env, Slave, M, ◌>>=◌, ◌>>◌, skip, when, gets,
  modify, esc_read, esc_write, blit, set_mbx, set_control, set_mem,
}

abbrev pub is_idle : MbxState → Bool
is_idle idle = true
is_idle _ = false

abbrev pub is_outreq : MbxState → Bool
is_outreq outreq = true
is_outreq _ = false

abbrev pub is_inclaim : MbxState → Bool
is_inclaim inclaim = true
is_inclaim _ = false

abbrev pub is_again : MbxState → Bool
is_again again = true
is_again _ = false

-- The next mailbox counter, 1 to 7.
unfoldable pub next_cnt : ℕ → ℕ
next_cnt c = let c' = u8 (c + 1) % 8 in if c' == 0 then 1 else c'

-- The header that a claimed buffer at offset `base` is given: to the master, channel and
-- priority 0, and the counter.
unfoldable pub claim_header : ℕ → ℕ → Mem → Mem
claim_header base cnt m = store_high (store8 (store16 m (base + 2) 0) (base + 4) 0) (base + 5) cnt

-- The highest idle buffer above 0, or 0.
unfoldable pub find_idle : Env → Slave → ℕ
find_idle e s = scan_down (λ k. is_idle (s.control k)) (e.buffers - 1)

unfoldable pub claimed : ℕ → Slave → Slave
claimed n s =
    let cnt = next_cnt s.mbx.cnt in
    record s {
      control = (set_control n outclaim s).control;
      mbx = record (s.mbx) { cnt = cnt; txcue = u8 (s.mbx.txcue + 1) };
      mem = claim_header (n * s.mbx.size) cnt s.mem;
    }

unfoldable pub claimbuffer : M ℕ
claimbuffer e s = let n = find_idle e s in if n == 0 then (0, s) else (n, claimed n s)

unfoldable pub outreqbuffer : M ℕ
outreqbuffer e s = (scan_down (λ k. is_outreq (s.control k)) (e.buffers - 1), s)

-- A queued mailbox error reply at offset `base`.
unfoldable pub error_reply : ℕ → ℕ → Mem → Mem
error_reply base error m =
    store16 (store16 (store_low (store16 m base 4) (base + 5) MbxType.err) (base + 6) 1) (base + 8)
      error

unfoldable pub queue_error : (error n : ℕ) → M (Unit {0})
queue_error error n =
    modify (λ s. set_control n outreq (set_mem (error_reply (n * s.mbx.size) error) s))

unfoldable pub mbx_error : ℕ → M (Unit {0})
mbx_error error = do n ← claimbuffer; if n == 0 then skip else queue_error error n

unfoldable pub readmbx : M (Unit {0})
readmbx = do
  mb0 ← gets (λ s. s.mbx.mb0)
  header ← esc_read mb0.sma mbx_header_size
  modify (set_mem (λ m. blit m 0 mbx_header_size header))
  stated ← gets (λ s. load16 s.mem 0)
  let room = sub32 mb0.sml mbx_header_size
  let length = if ltb room stated then u16 room else stated
  body ← esc_read (u16 (mb0.sma + mbx_header_size)) length
  modify (set_mem (λ m. blit m mbx_header_size length body))
  when (ltb (length + mbx_header_size) mb0.sml) (do last ← esc_read mb0.sme 1; skip)
  modify (set_control 0 inclaim)

unfoldable pub writembx : ℕ → M (Unit {0})
writembx n = do
  mb1 ← gets (λ s. s.mbx.mb1)
  base ← gets (λ s. n * s.mbx.size)
  stated ← gets (λ s. load16 s.mem base)
  let room = sub32 mb1.sml mbx_header_size
  let length = if ltb room stated then u16 room else stated
  content ← gets (λ s. bytes s.mem base (u16 (mbx_header_size + length)))
  esc_write mb1.sma content
  when (ltb (length + mbx_header_size) mb1.sml) (esc_write mb1.sme (0 ∷ []))
  modify (set_mbx (λ b. record b { free = false }))

unfoldable pub ackmbxread : M (Unit {0})
ackmbxread = do
  mb1 ← gets (λ s. s.mbx.mb1)
  esc_write mb1.sma (0 ∷ [])
  modify (set_mbx (λ b. record b { free = true }))

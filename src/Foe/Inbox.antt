-- ===== src/Foe/Inbox.antt =====
-- ESC_foeprocess (soes/esc_foe.c) and the mailbox layer.
use soes.Base.{
  ℕ, ◌+◌, ◌≡◌, ◌≢◌, refl, Bool, true, not, ◌&&◌, ◌==◌, ltb, leb, if-elim, u32, inl, arith,
}
use soes.Base.Memory.{load8, load16, load32, load_low}
use soes.Codes.{foe_header_size}
use soes.Codes.FoeErr
use soes.Codes.FoeOp
use soes.Codes.MbxType
use soes.Slave.{idle, inclaim, Slave, Env, M, ◌>>◌, set_foe, pure, when}
use soes.Mailbox.{is_inclaim}
use soes.Mailbox.Valid.{inbox-IsValid, same-IsValid}
use soes.Mailbox.Claim.{IsValidAt, reply-IsValid, queue-IsValid}
use soes.Foe.File.{rrq, wrq, init}
use soes.Foe.Reply.{
  abort, send_ack, send_data_packet, queue_data, queue_reply, next_packet, fill_data, foe_data_size,
}
use soes.Foe.Handlers.{
  is_ready, awaits_ack, awaits_final_ack, awaits_data, request_length, open_request, foe_read,
  foe_ack, foe_write, write_data, close, complete, full_packet, short_packet, take_data, foe_data,
  foe_busy, foe_error, dispatch, take_over, handle, release, process_taken, foeprocess,
}
use soes.Foe.Frames.{abort-IsValid, send_ack-IsValid}

-- What a program leaves, from the state `s`.
abbrev V : {A : Type 0} → Env → Slave → M A → Type 0
V e s m = IsValidAt e (m e s).1

module _ (e : Env) where
  send_data_packet-IsValid : (s : Slave) → IsValidAt e s → IsValidAt e (send_data_packet e s).1
  unfolding send_data_packet queue_data fill_data next_packet queue_reply
  send_data_packet-IsValid s v =
      reply-IsValid (pure FoeErr.prog_error) queue_data e s v
        (λ n p h i. queue-IsValid e s n v p h i)

  foe_ack-IsValid : (s : Slave) → IsValidAt e s → IsValidAt e (foe_ack e s).1
  unfolding foe_ack
  foe_ack-IsValid s v =
      if-elim (V e s) (awaits_final_ack s.foe.state) (λ _. v)
        (λ _.
          if-elim (V e s) (awaits_ack s.foe.state)
            (λ _.
              if-elim (V e t) (ltb (send_data_packet e s).0 (foe_data_size t)) (λ _. w)
                (λ _.
                  if-elim (V e t) (leb FoeErr.not_defined (send_data_packet e s).0)
                    (λ _. abort-IsValid _ e t w) (λ _. w)))
            (λ _. abort-IsValid _ e s v))
    where
      t : Slave
      t = (send_data_packet e s).1

      w : IsValidAt e t
      w = send_data_packet-IsValid s v

  foe_read-IsValid : (s : Slave) → IsValidAt e s → IsValidAt e (foe_read e s).1
  unfolding foe_read open_request
  foe_read-IsValid s v =
      if-elim (V e s) (is_ready s.foe.state)
        (λ _.
          if-elim (V e u) ((open_request rrq e (set_foe init s)).0 == 0)
            (λ _.
              if-elim (V e t) (leb (send_data_packet e u').0 (foe_data_size t)) (λ _. w)
                (λ _. abort-IsValid _ e t w))
            (λ _. abort-IsValid _ e u v))
        (λ _. abort-IsValid _ e s v)
    where
      u : Slave
      u = (open_request rrq e (set_foe init s)).1

      u' : Slave
      u' = set_foe (λ f. record f { packet = 1 }) u

      t : Slave
      t = (send_data_packet e u').1

      w : IsValidAt e t
      w = send_data_packet-IsValid u' v

  foe_write-IsValid : (s : Slave) → IsValidAt e s → IsValidAt e (foe_write e s).1
  unfolding foe_write open_request
  foe_write-IsValid s v =
      if-elim (V e s) (is_ready s.foe.state)
        (λ _.
          if-elim (V e u) ((open_request wrq e (set_foe init s)).0 == 0)
            (λ _.
              if-elim (V e (send_ack e u).1) ((send_ack e u).0 == 0) (λ _. send_ack-IsValid e u v)
                (λ _. abort-IsValid _ e _ (send_ack-IsValid e u v)))
            (λ _. abort-IsValid _ e u v))
        (λ _. abort-IsValid _ e s v)
    where
      u : Slave
      u = (open_request wrq e (set_foe init s)).1

  complete-IsValid : (s : Slave) → IsValidAt e s → IsValidAt e (complete e s).1
  unfolding complete
  complete-IsValid s v = send_ack-IsValid e s v

  full_packet-IsValid :
      (n len : ℕ) (s : Slave) → IsValidAt e s → IsValidAt e (full_packet n len e s).1
  unfolding full_packet
  full_packet-IsValid n len s v =
      if-elim (V e (send_ack e t).1) (not ((send_ack e t).0 == 0)) (λ _. abort-IsValid _ e _ w)
        (λ _. w)
    where
      t : Slave
      t = (when (not (n == len)) (abort FoeErr.prog_error) e s).1

      w : IsValidAt e (send_ack e t).1
      w =
          send_ack-IsValid e t
            (if-elim (V e s) (not (n == len)) (λ _. abort-IsValid _ e s v) (λ _. v))

  short_packet-IsValid :
      (n len : ℕ) (s : Slave) → IsValidAt e s → IsValidAt e (short_packet n len e s).1
  unfolding short_packet close
  short_packet-IsValid n len s v =
      if-elim (V e s) (n == len)
        (λ _.
          if-elim (V e t) (close e s).0 (λ _. abort-IsValid _ e t v) (λ _. complete-IsValid t v))
        (λ _. abort-IsValid _ e s v)
    where
      t : Slave
      t = (close e s).1

  foe_data-IsValid : (s : Slave) → IsValidAt e s → IsValidAt e (foe_data e s).1
  unfolding foe_data take_data write_data close
  foe_data-IsValid s v =
      if-elim (V e s) (awaits_data s.foe.state)
        (λ _.
          if-elim (V e s) (load32 s.mem 8 == s.foe.packet)
            (λ _.
              if-elim (V e s) (len == 0) (λ _. complete-IsValid (close e s).1 v)
                (λ _.
                  if-elim (V e s) (ltb s.foe.fend (u32 (s.foe.fposition + len)))
                    (λ _. abort-IsValid _ e s v)
                    (λ _.
                      if-elim (V e u) (n == 0) (λ _. abort-IsValid _ e u v)
                        (λ _.
                          if-elim (V e u) (len == foe_data_size u)
                            (λ _. full_packet-IsValid n len u v)
                            (λ _. short_packet-IsValid n len u v)))))
            (λ _. abort-IsValid _ e s v))
        (λ _. abort-IsValid _ e s v)
    where
      len : ℕ
      len = request_length s

      n : ℕ
      n = (write_data len e s).0

      u : Slave
      u = (write_data len e s).1

  foe_busy-IsValid : (s : Slave) → IsValidAt e s → IsValidAt e (foe_busy e s).1
  unfolding foe_busy
  foe_busy-IsValid s v =
      if-elim (V e s) (awaits_ack s.foe.state) (λ _. foe_ack-IsValid _ v)
        (λ _. abort-IsValid _ e s v)

  dispatch-IsValid :
      (b : Bool) (op : ℕ) (s : Slave) → IsValidAt e s → IsValidAt e (dispatch b op e s).1
  unfolding dispatch foe_error
  dispatch-IsValid b op s v =
      if-elim (V e s) (op == FoeOp.wrq) (λ _. foe_write-IsValid s v)
        (λ _.
          if-elim (V e s) (op == FoeOp.dat) (λ _. foe_data-IsValid s v)
            (λ _.
              if-elim (V e s) (b && (op == FoeOp.rrq)) (λ _. foe_read-IsValid s v)
                (λ _.
                  if-elim (V e s) (b && (op == FoeOp.ack)) (λ _. foe_ack-IsValid s v)
                    (λ _.
                      if-elim (V e s) (b && (op == FoeOp.busy)) (λ _. foe_busy-IsValid s v)
                        (λ _.
                          if-elim (V e s) (op == FoeOp.err) (λ _. abort-IsValid _ e s v)
                            (λ _. abort-IsValid _ e s v))))))

  handle-IsValid : (s : Slave) → IsValidAt e s → IsValidAt e (handle e s).1
  unfolding handle
  handle-IsValid s v =
      if-elim (V e s) (ltb (load16 s.mem 0) foe_header_size) (λ _. abort-IsValid _ e s v)
        (λ _. dispatch-IsValid e.foe.read_supported (load8 s.mem 6) s v)

  process_taken-IsValid : (s : Slave) → IsValidAt e s → IsValidAt e (process_taken e s).1
  unfolding process_taken release
  process_taken-IsValid s v =
      if-elim (V e s) (s.mbx.xoe == MbxType.foe)
        (λ _.
          inbox-IsValid e.buffers _ _ _ (handle-IsValid s v) idle (inl refl) refl refl refl refl)
        (λ _. v)

-- ESC_foeprocess keeps the mailbox layer's invariant, with FOE_READ_SUPPORTED or without.
pub foeprocess-IsValid : (e : Env) (s : Slave) → IsValidAt e s → IsValidAt e (foeprocess e s).1
unfolding foeprocess take_over
foeprocess-IsValid e s v =
    if-elim (V e s) s.mbx.run
      (λ _.
        if-elim (λ (m : M (Unit {0})). V e s (m >> process_taken))
          ((s.mbx.xoe == 0) && is_inclaim (s.control 0) && (load_low s.mem 5 == MbxType.foe))
          (λ _.
            process_taken-IsValid e _ (same-IsValid e.buffers _ _ _ v refl refl (inl refl) refl))
          (λ _. process_taken-IsValid e s v))
      (λ _. v)

-- A FoE message that waits in the inbox of running mailboxes is done with when FoE processing
-- returns, whatever it holds: the inbox is idle and no protocol is in progress.
pub foeprocess_releases :
    (e : Env) (s : Slave)
    → s.mbx.run ≡ true
    → s.mbx.xoe ≡ 0
    → s.control 0 ≡ inclaim
    → load_low s.mem 5 ≡ MbxType.foe
    → let t = (foeprocess e s).1 in (t.control 0 ≡ idle) × (t.mbx.xoe ≡ 0)
unfolding foeprocess take_over process_taken release
foeprocess_releases e s r x c f = ground arith

-- ESC_foeprocess leaves a message that another protocol has taken alone.
pub foeprocess_other :
    (e : Env) (s : Slave) → s.mbx.xoe ≢ 0 → s.mbx.xoe ≢ MbxType.foe → (foeprocess e s).1 ≡ s
unfolding foeprocess take_over process_taken
foeprocess_other e s z f =
    if-elim (λ (m : M (Unit {0})). (m e s).1 ≡ s) s.mbx.run (λ _. ground (arith, z, f)) (λ _. refl)

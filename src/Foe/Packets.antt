-- ===== src/Foe/Packets.antt =====
-- FOE_data (soes/esc_foe.c) and the steps of the abstract receiver.
use soes.Base.{
  ◌≢◌, eq-of-==, ℕ, ◌+◌, ◌<◌, ◌≡◌, refl, ap, ◌∙◌, inl, inr, not, List, ◌++◌, ◌==◌, if-elim, u32,
  arith,
}
use soes.Base.Memory.{bytes}
use soes.Codes.FoeErr
use soes.Codes.FoeOp
use soes.Slave.{◌>>=◌, ◌>>◌, when, ready, wait_for_data, Flush, Env, Slave, M}
use soes.Foe.File.{init}
use soes.Foe.Reply.{abort, send_ack, foe_data_size}
use soes.Foe.Handlers.{
  request_length, write_data, close, complete, full_packet, short_packet, take_data,
}
use soes.Foe.Receiver.{
  Receiver, idle, receiving, idle_holds, receiving_holds, Next, took, ended, stop, Steps, opcode_in,
  number_in, payload, HasRoom, not_written, no_buffer, no_ack, abort-Steps,
}
use soes.Foe.Stream.{Receiving, fwrite-SameSession, fwrite-Receiving, Receiving-update}
use soes.Foe.Frames.{abort_foe, send_ack_foe}

-- What the handlers of a data packet do, once the state, the number and the room are checked. `at` is the
-- state at the message.
module _ (e : Env) (base : List Flush) (file packet : ℕ) (xs : List ℕ) (at : Slave) where
  pub complete-Steps :
      (s : Slave) (r : Receiver) → Next e at r idle → Steps e at r (complete e s).1.foe
  unfolding complete init
  complete-Steps s r n = (idle, n, idle_holds refl refl)

  short_packet-Steps :
      (ncopied len : ℕ) (s : Slave) (r : Receiver)
      → Next e at r idle
      → Steps e at r (short_packet ncopied len e s).1.foe
  unfolding short_packet
  short_packet-Steps ncopied len s r n =
      if-elim (λ (m : M (Unit {0})). Steps e at r (m e s).1.foe) (ncopied == len)
        (λ _.
          if-elim (λ (m : M (Unit {0})). Steps e at r (m e (close e s).1).1.foe) (close e s).0
            (λ _. abort-Steps _ e _ at r n) (λ _. complete-Steps _ r n))
        (λ _. abort-Steps _ e s at r n)

  -- After an abort, an acknowledgement is queued all the same.
  ack_or_abort-Steps :
      (s : Slave) (r : Receiver)
      → s.foe.state ≡ ready
      → s.foe.fbufposition ≡ 0
      → Next e at r idle
      → Steps e at r ((send_ack >>= λ res. when (not (res == 0)) (abort res)) e s).1.foe
  ack_or_abort-Steps s r w z n =
      if-elim (λ (m : M (Unit {0})). Steps e at r (m e (send_ack e s).1).1.foe)
        (not ((send_ack e s).0 == 0)) (λ _. abort-Steps _ e _ at r n)
        (λ _. (
          idle,
          n,
          idle_holds (ground (arith, send_ack_foe e s)) (ground (arith, send_ack_foe e s)),
        ))

  -- A packet whose data have been taken.
  abbrev before : Receiver
  before = receiving base file xs packet

  abbrev IsNext : Type 0
  IsNext =
      (opcode_in at ≡ FoeOp.dat)
      × (number_in at ≡ packet)
      × (request_length at ≡ foe_data_size at)
      × HasRoom at

  took_or_abort-Steps :
      (ys : List ℕ) (s : Slave)
      → IsNext
      → s.control ≡ at.control
      → Receiving e.foe base file (xs ++ payload at) ys s.foe
      → s.foe.state ≡ wait_for_data
      → s.foe.packet ≡ packet
      → Steps e at before ((send_ack >>= λ res. when (not (res == 0)) (abort res)) e s).1.foe
  took_or_abort-Steps ys s (o, number, full, room) same t w k =
      if-elim (λ (m : M (Unit {0})). Steps e at before (m e (send_ack e s).1).1.foe)
        (not ((send_ack e s).0 == 0))
        (λ p.
          abort-Steps _ e _ at before
            (stop before (no_buffer before (no_ack e s at same (λ z. ground (arith, p, z))))))
        (λ p.
          let q : (send_ack e s).1.foe ≡ record (s.foe) { packet = u32 (s.foe.packet + 1) } =
            ground (arith, send_ack_foe e s) in
          (
            receiving base file (xs ++ payload at) (u32 (packet + 1)),
            took base file xs packet o number full room,
            rw q (
                receiving_holds base file (xs ++ payload at) ys (u32 (packet + 1)) w
                  (ap (λ n. u32 (n + 1)) k)
                  (Receiving-update e.foe base file s.foe.fprevposition (u32 (s.foe.packet + 1))
                    s.foe.total_size s.foe.state t)),
          ))

  full_packet-Steps :
      (ncopied len : ℕ) (s : Slave)
      → IsNext
      → s.control ≡ at.control
      → (ncopied ≡ len → (ys : List ℕ) × Receiving e.foe base file (xs ++ payload at) ys s.foe)
      → (ncopied ≢ len → Next e at before idle)
      → s.foe.state ≡ wait_for_data
      → s.foe.packet ≡ packet
      → Steps e at before (full_packet ncopied len e s).1.foe
  unfolding full_packet init
  full_packet-Steps ncopied len s i same h n w k =
      if-elim
        (λ (m : M (Unit {0})).
          Steps e at before
            ((m >> (send_ack >>= λ res. when (not (res == 0)) (abort res))) e s).1.foe)
        (not (ncopied == len))
        (λ p.
          ack_or_abort-Steps (abort FoeErr.prog_error e s).1 before (rw abort_foe refl)
            (rw abort_foe refl) (n (λ z. ground (arith, p, z))))
        (λ p. let (ys, t) = h (ground arith) in took_or_abort-Steps ys s i same t w k)

-- What the write of a packet's data leaves for the handlers.
write_data_foe :
    (e : Env) (s : Slave) (len : ℕ)
    → let t = (write_data len e s).1 in (t.foe.state ≡ s.foe.state) × (t.foe.packet ≡ s.foe.packet)
unfolding write_data
write_data_foe e s len = ground (arith, fwrite-SameSession e.foe s.mem 12 len s.foe)

-- A write that counts every byte has taken them all.
pub write_data-Receiving :
    (e : Env) (s : Slave) (base : List Flush) (file len : ℕ) (xs ys : List ℕ)
    → len < 4294967296
    → Receiving e.foe base file xs ys s.foe
    → (write_data len e s).0 ≡ len
    → (zs : List ℕ) × Receiving e.foe base file
        (xs ++ bytes s.mem 12 len)
        zs
        (write_data len e s).1.foe
unfolding write_data
write_data-Receiving e s base file len xs ys small t h =
    elim (fwrite-Receiving e.foe base file s.mem 12 len xs ys s.foe small t) [
      | inl (c, all) ↦ all
      | inr c ↦ absurd (omega (arith, c, h))
    ]

pub take_data-Steps :
    (e : Env) (s : Slave) (base : List Flush) (file packet : ℕ) (xs ys : List ℕ)
    → opcode_in s ≡ FoeOp.dat
    → number_in s ≡ packet
    → request_length s ≢ 0
    → HasRoom s
    → Receiving e.foe base file xs ys s.foe
    → s.foe.state ≡ wait_for_data
    → s.foe.packet ≡ packet
    → Steps e s (receiving base file xs packet) (take_data (request_length s) e s).1.foe
unfolding take_data write_data
take_data-Steps e s base file packet xs ys o number some room t w k =
    let len = request_length s in
    let u = (write_data len e s).1 in
    let r = receiving base file xs packet in
    let n = (write_data len e s).0 in
    let (sw, sk) = write_data_foe e s len in
    if-elim (λ (m : M (Unit {0})). Steps e s r (m e u).1.foe) (n == 0)
      (λ p.
        abort-Steps _ e u s r
          (stop r (not_written base file xs packet o number (λ z. some (ground (arith, p, z))))))
      (λ _.
        if-elim (λ (m : M (Unit {0})). Steps e s r (m e u).1.foe) (len == foe_data_size u)
          (λ full.
            full_packet-Steps e base file packet xs s n len u (o, number, eq-of-== _ _ full, room)
              refl (write_data-Receiving e s base file len xs ys (omega arith) t)
              (λ z. stop r (not_written base file xs packet o number z)) (sw ∙ w) (sk ∙ k))
          (λ short.
            short_packet-Steps e base file packet xs s n len u r
              (ended base file xs packet o number (inr (λ z. ground (arith, short, z), room)))))

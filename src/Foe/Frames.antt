-- ===== src/Foe/Frames.antt =====
-- What the replies of soes/esc_foe.c do to the FoE variables and to the mailbox layer.
use soes.Base.{ℕ, ◌-◌, ◌<◌, ◌≤◌, ◌+◌, ◌≡◌, ◌⊎◌, inl, inr, not, ◌==◌, if-elim, u32, arith}
use soes.Slave.{idle, Env, Slave, M, skip, pure}
use soes.Mailbox.{claimbuffer, claimed}
use soes.Mailbox.Claim.{
  IsValidAt, claimbuffer-cases, claimbuffer_available, reply-IsValid, queue-IsValid,
}
use soes.Codes.{foe_header_size}
use soes.Codes.FoeErr
use soes.Codes.FoeOp
use soes.Foe.File.{init}
use soes.Foe.Reply.{queue_reply, abort_reply, abort, send_ack, queue_ack, next_packet}

claimbuffer_foe :
    (e : Env) (s : Slave)
    → let t = (claimbuffer e s).1 in
      (t.foe ≡ s.foe) × (t.al ≡ s.al) × (t.mbx.xoe ≡ s.mbx.xoe) × (t.mbx.size ≡ s.mbx.size)
unfolding claimed
claimbuffer_foe e s = elim (claimbuffer-cases e s) [
  | inl q ↦ ground (arith, q)
  | inr (p, h, i, q) ↦ ground (arith, q)
]

-- Sending an error reply touches no FoE variable; after it they are as FOE_init leaves them.
pub abort_foe : (code : ℕ) (e : Env) (s : Slave) → (abort code e s).1.foe ≡ init s.foe
unfolding abort abort_reply queue_reply
abort_foe code e s = ground (arith, claimbuffer_foe e s)

-- An acknowledgement carries the packet number and counts it up, or no buffer is free.
pub send_ack_foe :
    (e : Env) (s : Slave)
    → let (res, t) = send_ack e s in
      ((res ≡ 0) × (t.foe ≡ record (s.foe) { packet = u32 (s.foe.packet + 1) }))
      ⊎ ((res ≡ FoeErr.prog_error) × (t.foe ≡ s.foe))
unfolding send_ack queue_ack next_packet queue_reply
send_ack_foe e s = ground (arith, claimbuffer_foe e s)

-- Queueing a reply keeps the mailbox layer's invariant.
pub abort-IsValid :
    (code : ℕ) (e : Env) (s : Slave) → IsValidAt e s → IsValidAt e (abort code e s).1
unfolding abort abort_reply queue_reply
abort-IsValid code e s v =
    if-elim (λ (m : M (Unit {0})). IsValidAt e (m e s).1) (not (code == 0))
      (λ z.
        reply-IsValid skip (λ n. queue_reply n foe_header_size FoeOp.err code) e s v
          (λ n p h i. queue-IsValid e s n v p h i))
      (λ z. v)

pub send_ack-IsValid : (e : Env) (s : Slave) → IsValidAt e s → IsValidAt e (send_ack e s).1
unfolding send_ack queue_ack next_packet queue_reply
send_ack-IsValid e s v =
    reply-IsValid (pure FoeErr.prog_error) queue_ack e s v (λ n p h i. queue-IsValid e s n v p h i)

pub send_ack_available :
    (e : Env) (s : Slave) (k : ℕ)
    → 0 < k
    → k ≤ e.buffers - 1
    → s.control k ≡ idle
    → (send_ack e s).0 ≡ 0
unfolding send_ack queue_ack next_packet queue_reply
send_ack_available e s k p h i =
    let (least, few, free, q) = claimbuffer_available e s k p h i in ground (arith, q)

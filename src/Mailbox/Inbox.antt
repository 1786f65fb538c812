-- ===== src/Mailbox/Inbox.antt =====
-- ESC_mbxprocess (soes/esc.c) while a message in the inbox is being dealt with.
use soes.Base.{ℕ, ◌≡◌, ◌≢◌, refl, ap, ◌∙◌, sym, true, not, ◌||◌, ◌==◌, if-elim, has_bit, arith}
use mathlib.Core.Path.{subst}
use soes.Codes.Event
use soes.Bus.{sm_status, sm_write_pdi, sm_enable, sm_disable}
use soes.Bus.Frame.{sm_enable-OnlySm, sm_disable-OnlySm}
use soes.Slave.{again, Env, Slave, M, set_control, esc_read, esc_write}
use soes.Mailbox.Buffers.{outreqbuffer, writembx, ackmbxread, is_again}
use soes.Mailbox.Transfer.{
  dispose_backup, rotate_backup, ack_repeat, repeat, post, can_send, send_queued, can_receive,
  receive, was_read, is_repeated, read_by_master, repeat_request, mbx_step, refresh_status,
  mbxprocess,
}
use soes.Mailbox.Keeps.{read_by_master_lem, repeat_lem, post_lem, sm_status_lem}

-- The message in the inbox, and what is known of it, are left alone.
pub record InboxKept (s t : Slave) : Type 0 where
  pub mem : t.mem ≡ s.mem
  pub held : t.sdo_held ≡ s.sdo_held
  pub xoe : t.mbx.xoe ≡ s.mbx.xoe
  pub inbox : t.control 0 ≡ s.control 0

-- All but the state of the inbox.
record Kept (s t : Slave) : Type 0 where
  mem : t.mem ≡ s.mem
  held : t.sdo_held ≡ s.sdo_held
  xoe : t.mbx.xoe ≡ s.mbx.xoe

Kept-refl : (s : Slave) → Kept s s
Kept-refl s = record { mem = refl; held = refl; xoe = refl }

Kept-trans : (s t u : Slave) → Kept s t → Kept t u → Kept s u
Kept-trans s t u a b = record { mem = b.mem ∙ a.mem; held = b.held ∙ a.held; xoe = b.xoe ∙ a.xoe }

writembx-Kept : (n : ℕ) (e : Env) (s : Slave) → Kept s (writembx n e s).1
unfolding writembx esc_write
writembx-Kept n e s = record { mem = ground arith; held = ground arith; xoe = ground arith }

ackmbxread-Kept : (e : Env) (s : Slave) → Kept s (ackmbxread e s).1
unfolding ackmbxread esc_write
ackmbxread-Kept e s = record { mem = refl; held = refl; xoe = refl }

dispose-Kept : (e : Env) (s : Slave) → Kept s (dispose_backup e s).1
unfolding dispose_backup
dispose-Kept e s = record { mem = ground arith; held = ground arith; xoe = ground arith }

ack_repeat-Kept : (e : Env) (s : Slave) → Kept s (ack_repeat e s).1
unfolding ack_repeat sm_write_pdi esc_write
ack_repeat-Kept e s = record { mem = refl; held = refl; xoe = refl }

sm_status-Kept : (n : ℕ) (e : Env) (s : Slave) → Kept s (sm_status n e s).1
unfolding sm_status esc_read
sm_status-Kept n e s = record { mem = refl; held = refl; xoe = refl }

read-Kept : (e : Env) (s : Slave) → Kept s (read_by_master e s).1
unfolding read_by_master rotate_backup
read-Kept e s =
    let a = (ackmbxread e s).1 in
    let b = (dispose_backup e a).1 in
    let before = Kept-trans s a b (ackmbxread-Kept e s) (dispose-Kept e a) in
    if-elim (λ (m : M (Unit {0})). Kept s (rotate_backup e (m e b).1).1)
      (is_again (b.control b.mbx.posted))
      (λ _.
        let w = writembx-Kept b.mbx.posted e b in
        record { mem = w.mem ∙ before.mem; held = w.held ∙ before.held; xoe = w.xoe ∙ before.xoe })
      (λ _. record { mem = before.mem; held = before.held; xoe = before.xoe })

repeat-Kept : (e : Env) (s : Slave) → Kept s (repeat e s).1
unfolding repeat
repeat-Kept e s =
    let a = (sm_disable 1 e s).1 in
    let b = set_control s.mbx.posted again a in
    let c = (sm_enable 1 e b).1 in
    let x = sm_disable-OnlySm 1 e s in
    let y = sm_enable-OnlySm 1 e b in
    let moved : Kept s c = record {
      mem = y.mem ∙ x.mem;
      held = y.held ∙ x.held;
      xoe = ap (λ m. m.xoe) (y.mbx ∙ x.mbx);
    } in
    if-elim (λ (m : M (Unit {0})). Kept s (ack_repeat e (m e s).1).1) (s.mbx.posted == 0)
      (λ _. Kept-trans s _ _ (writembx-Kept s.mbx.kept e s) (ack_repeat-Kept e _))
      (λ _.
        Kept-trans s _ _ (Kept-trans s c _ moved (writembx-Kept s.mbx.kept e c))
          (ack_repeat-Kept e _))

post-Kept : (n : ℕ) (e : Env) (s : Slave) → Kept s (post n e s).1
unfolding post
post-Kept n e s =
    let k = Kept-trans s _ _ (writembx-Kept n e s) (sm_status-Kept 1 e (writembx n e s).1) in
    record { mem = k.mem; held = k.held; xoe = k.xoe }

read-InboxKept : (e : Env) (s : Slave) → was_read s ≡ true → InboxKept s (read_by_master e s).1
read-InboxKept e s r =
    let (c, q, k, t) = read_by_master_lem e s in
    let f = read-Kept e s in
    record { mem = f.mem; held = f.held; xoe = f.xoe; inbox = ap (λ g. g 0) c ∙ ground (arith, r) }

repeat-InboxKept : (e : Env) (s : Slave) → InboxKept s (repeat_request e s).1
unfolding repeat_request
repeat-InboxKept e s =
    let (c, q, k, f, t) = repeat_lem e s in
    let o = repeat-Kept e s in
    if-elim (λ (m : M (Unit {0})). InboxKept s (m e s).1)
      (not (s.mbx.posted == 0) || not (s.mbx.kept == 0))
      (λ _. record {
        mem = o.mem;
        held = o.held;
        xoe = o.xoe;
        inbox = ap (λ g. g 0) c ∙ ground arith;
      })
      (λ _. record { mem = refl; held = refl; xoe = refl; inbox = refl })

send-InboxKept : (e : Env) (s : Slave) → InboxKept s (send_queued e s).1
unfolding send_queued post outreqbuffer
send-InboxKept e s =
    let n = (outreqbuffer e s).0 in
    let same : InboxKept s s = record { mem = refl; held = refl; xoe = refl; inbox = refl } in
    if-elim (λ (m : M (Unit {0})). InboxKept s (m e s).1) (can_send s)
      (λ _.
        if-elim (λ (m : M (Unit {0})). InboxKept s (m e s).1) (not (n == 0))
          (λ h.
            let (c, q, k, f, t) = post_lem n e s in
            let o = post-Kept n e s in
            record {
              mem = o.mem;
              held = o.held;
              xoe = o.xoe;
              inbox = ap (λ g. g 0) c ∙ ground (arith, h);
            })
          (λ _. same))
      (λ _. same)

receive_blocked : (e : Env) (s : Slave) → s.mbx.xoe ≢ 0 → (receive e s).1 ≡ s
unfolding receive
receive_blocked e s h =
    if-elim (λ (m : M ℕ). (m e s).1 ≡ s) (can_receive s) (λ p. absurd (ground (arith, p, h)))
      (λ _. refl)

step-InboxKept : (e : Env) (s : Slave) → s.mbx.xoe ≢ 0 → InboxKept s (mbx_step e s).1
unfolding mbx_step
step-InboxKept e s h =
    let o = send-InboxKept e s in
    if-elim (λ (m : M ℕ). InboxKept s (m e s).1) (was_read s) (λ r. read-InboxKept e s r)
      (λ _.
        if-elim (λ (m : M ℕ). InboxKept s (m e s).1) (is_repeated s) (λ _. repeat-InboxKept e s)
          (λ _.
            subst (InboxKept s)
              (sym (receive_blocked e (send_queued e s).1 (λ z. h (sym o.xoe ∙ z)))) o))

-- While a message is being dealt with, ESC_mbxprocess leaves it in the inbox.
pub mbxprocess-InboxKept : (e : Env) (s : Slave) → s.mbx.xoe ≢ 0 → InboxKept s (mbxprocess e s).1
unfolding mbxprocess refresh_status
mbxprocess-InboxKept e s h =
    let same : InboxKept s s = record { mem = refl; held = refl; xoe = refl; inbox = refl } in
    let a = (sm_status 0 e s).1 in
    let (c, m) = sm_status_lem 0 e s in
    let (c', m') = sm_status_lem 1 e a in
    let k = Kept-trans s a _ (sm_status-Kept 0 e s) (sm_status-Kept 1 e a) in
    if-elim (λ (f : M ℕ). InboxKept s (f e s).1) s.mbx.run
      (λ _.
        if-elim (λ (f : M (Unit {0})). InboxKept s (mbx_step e (f e s).1).1)
          (has_bit s.io.al_event Event.sm0 || has_bit s.io.al_event Event.sm1)
          (λ _.
            let o = step-InboxKept e _ (λ z. h (sym k.xoe ∙ z)) in
            record {
              mem = o.mem ∙ k.mem;
              held = o.held ∙ k.held;
              xoe = o.xoe ∙ k.xoe;
              inbox = o.inbox ∙ ap (λ g. g 0) (c' ∙ c);
            })
          (λ _. step-InboxKept e s h))
      (λ _. same)

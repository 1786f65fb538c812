-- ===== src/Mailbox/Race.antt =====
-- ESC_mbxprocess (soes/esc.c) when the master reads the outbox while the event register is not yet
-- refreshed.
use soes.Base.{ℕ, ◌≡◌, ◌≢◌, ◌∙◌, ap, sym, true, false, not, arith, ◌==◌, if-elim, has_bit}
use soes.Codes.Event
use soes.Slave.{outpost, outreq, Env, Slave, M}
use soes.Bus.{mbx_stat}
use soes.Mailbox.Buffers.{outreqbuffer}
use soes.Mailbox.Transfer.{
  can_send, send_queued, can_receive, receive, was_read, is_repeated, mbx_step,
}
use soes.Mailbox.Keeps.{post_lem}

-- A posted buffer that a step forgets: it stays posted, and another one is recorded in its place.
pub record Orphaned (p n : ℕ) (t : Slave) : Type 0 where
  pub kept : t.control p ≡ outpost
  pub recorded : t.mbx.posted ≡ n
  pub others : p ≢ n
  pub not_kept : t.mbx.kept ≢ p

send_queued-Orphaned :
    (e : Env) (s : Slave) (p n : ℕ)
    → s.control p ≡ outpost
    → s.mbx.kept ≢ p
    → s.control n ≡ outreq
    → n ≢ 0
    → can_send s ≡ true
    → (outreqbuffer e s).0 ≡ n
    → Orphaned p n (send_queued e s).1
unfolding send_queued outreqbuffer
send_queued-Orphaned e s p n at_p other at_n pos can found =
    if-elim (λ (m : M (Unit {0})). Orphaned p n (m e s).1) (can_send s)
      (λ _.
        if-elim (λ (m : M (Unit {0})). Orphaned p n (m e s).1) (not ((outreqbuffer e s).0 == 0))
          (λ _.
            let (c, q, k, f, t) = post_lem (outreqbuffer e s).0 e s in
            record {
              kept = ap (λ k. k p) c ∙ ground (arith, at_p);
              recorded = q ∙ found;
              others = λ same. ground (arith, at_p, at_n);
              not_kept = λ h. other (sym k ∙ h);
            })
          (λ z. absurd (ground (arith, found))))
      (λ z. absurd (ground (arith, can)))

-- If the master reads the posted buffer `p` so that the SyncManager reports the outbox empty while the
-- event register does not report the read yet, and buffer `n` is queued, then one step of the mailbox
-- protocol records `n` as posted while `p` stays posted, and is not the kept buffer.
pub mbx_step-Orphaned :
    (e : Env) (s : Slave) (p n : ℕ)
    → s.mbx.posted ≡ p
    → p ≢ 0
    → s.control p ≡ outpost
    → s.mbx.kept ≢ p
    → has_bit s.io.al_event Event.sm1 ≡ false
    → mbx_stat (s.sm 1) ≡ 0
    → is_repeated s ≡ false
    → s.mbx.txcue ≢ 0
    → (outreqbuffer e s).0 ≡ n
    → n ≢ 0
    → s.control n ≡ outreq
    → Orphaned p n (mbx_step e s).1
unfolding mbx_step receive
mbx_step-Orphaned e s p n at nonzero at_p other unread empty same queued found pos at_n =
    let t = (send_queued e s).1 in
    let o = send_queued-Orphaned e s p n at_p other at_n pos (ground (arith, empty)) found in
    if-elim (λ (m : M ℕ). Orphaned p n (m e s).1) (was_read s)
      (λ z. absurd (ground (arith, unread)))
      (λ _.
        if-elim (λ (m : M ℕ). Orphaned p n (m e s).1) (is_repeated s)
          (λ z. absurd (ground (arith, same)))
          (λ _.
            if-elim (λ (m : M ℕ). Orphaned p n (m e t).1) (can_receive t)
              (λ z. absurd (blocked t o.recorded z)) (λ _. o)))
  where
    blocked : (t : Slave) → t.mbx.posted ≡ n → can_receive t ≢ true
    blocked t h = λ z. ground (arith, h, pos)

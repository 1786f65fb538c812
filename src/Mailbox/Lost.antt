-- ===== src/Mailbox/Lost.antt =====
-- ESC_mbxprocess (soes/esc.c) and a posted buffer that is neither recorded as posted nor as kept.
use soes.Base.{
  ℕ, ◌≡◌, ◌≢◌, inl, inr, ap, ◌∙◌, sym, false, not, ◌&&◌, ◌||◌, ◌==◌, ltb, if-elim, has_bit, arith,
  sub32,
}
use soes.Base.Memory.{load16, load_high}
use soes.Codes.{mbx_header_size}
use soes.Codes.Event
use soes.Codes.MbxErr
use soes.Bus.{mbx_stat, sm_status}
use soes.Slave.{outpost, outreq, Env, Slave, M, set_mbx}
use soes.Mailbox.Buffers.{outreqbuffer, claimed, queue_error, error_reply, mbx_error}
use soes.Mailbox.Transfer.{
  post, can_send, send_queued, can_receive, receive, drop_invalid, drop_repeated, was_read,
  is_repeated, read_by_master, repeat_request, mbx_step, refresh_status, mbxprocess,
}
use soes.Mailbox.Valid.{readmbx_lem}
use soes.Mailbox.Claim.{claimbuffer-cases}
use soes.Mailbox.Keeps.{read_by_master_lem, repeat_lem, post_lem, sm_status_lem, outreqbuffer_lem}
use soes.Mailbox.Race.{mbx_step-Orphaned}

-- Buffer `p` waits as posted, but no record names it.
pub record Lost (p : ℕ) (s : Slave) : Type 0 where
  pub waits : s.control p ≡ outpost
  pub not_posted : s.mbx.posted ≢ p
  pub not_kept : s.mbx.kept ≢ p

read-Lost : (p : ℕ) (e : Env) (s : Slave) → p ≢ 0 → Lost p s → Lost p (read_by_master e s).1
read-Lost p e s z l =
    let (c, q, k, t) = read_by_master_lem e s in
    record {
      waits = ap (λ f. f p) c ∙ ground (arith, l.waits, l.not_posted, l.not_kept);
      not_posted = λ h. ground (arith, q, h, z);
      not_kept = λ h. l.not_posted (sym k ∙ h);
    }

repeat-Lost : (p : ℕ) (e : Env) (s : Slave) → Lost p s → Lost p (repeat_request e s).1
unfolding repeat_request
repeat-Lost p e s l =
    let (c, q, k, f, t) = repeat_lem e s in
    if-elim (λ (m : M (Unit {0})). Lost p (m e s).1)
      (not (s.mbx.posted == 0) || not (s.mbx.kept == 0))
      (λ _. record {
        waits = ap (λ g. g p) c ∙ ground (arith, l.waits, l.not_posted);
        not_posted = λ h. l.not_posted (sym q ∙ h);
        not_kept = λ h. l.not_kept (sym k ∙ h);
      })
      (λ _. l)

send-Lost : (p : ℕ) (e : Env) (s : Slave) → Lost p s → Lost p (send_queued e s).1
unfolding send_queued post outreqbuffer
send-Lost p e s l =
    let n = (outreqbuffer e s).0 in
    if-elim (λ (m : M (Unit {0})). Lost p (m e s).1) (can_send s)
      (λ _.
        if-elim (λ (m : M (Unit {0})). Lost p (m e s).1) (not (n == 0))
          (λ h.
            let (c, q, k, f, t) = post_lem n e s in
            let queued : s.control n ≡ outreq = (outreqbuffer_lem e s).1 (ground arith) in
            let other : n ≢ p = λ same. ground (arith, queued, l.waits, ap s.control same) in
            record {
              waits = ap (λ g. g p) c ∙ ground (arith, l.waits, other);
              not_posted = λ h. other (sym q ∙ h);
              not_kept = λ h. l.not_kept (sym k ∙ h);
            })
          (λ _. l))
      (λ _. l)

error-Lost : (p code : ℕ) (e : Env) (s : Slave) → Lost p s → Lost p (mbx_error code e s).1
unfolding mbx_error queue_error error_reply claimed
error-Lost p code e s l = elim (claimbuffer-cases e s) [
  | inl q ↦ record {
    waits = ground (arith, q, l.waits);
    not_posted = λ z. ground (arith, q, z, l.not_posted);
    not_kept = λ z. ground (arith, q, z, l.not_kept);
  }
  | inr (h, le, i, q) ↦ record {
    waits = ground (arith, q, h, i, l.waits);
    not_posted = λ z. ground (arith, q, z, l.not_posted);
    not_kept = λ z. ground (arith, q, z, l.not_kept);
  }
]

drop_invalid-Lost : (p : ℕ) (e : Env) (s : Slave) → p ≢ 0 → Lost p s → Lost p (drop_invalid e s).1
unfolding drop_invalid
drop_invalid-Lost p e s z l =
    if-elim (λ (m : M (Unit {0})). Lost p (m e s).1)
      ((load16 s.mem 0 == 0) || ltb (sub32 s.mbx.mb0.sml mbx_header_size) (load16 s.mem 0))
      (λ _.
        let k = error-Lost p MbxErr.invalid_header e s l in
        record {
          waits = ground (arith, k.waits, z);
          not_posted = k.not_posted;
          not_kept = k.not_kept;
        })
      (λ _. l)

drop_repeated-Lost : (p : ℕ) (e : Env) (s : Slave) → p ≢ 0 → Lost p s → Lost p (drop_repeated e s).1
unfolding drop_repeated
drop_repeated-Lost p e s z l =
    if-elim
      (λ (m : M (Unit {0})).
        Lost p (set_mbx (λ b. record b { incnt = load_high s.mem 5 }) (m e s).1))
      (not (load_high s.mem 5 == 0) && (load_high s.mem 5 == s.mbx.incnt))
      (λ _. record {
        waits = ground (arith, l.waits, z);
        not_posted = l.not_posted;
        not_kept = l.not_kept;
      })
      (λ _. record { waits = l.waits; not_posted = l.not_posted; not_kept = l.not_kept })

receive-Lost : (p : ℕ) (e : Env) (s : Slave) → p ≢ 0 → Lost p s → Lost p (receive e s).1
unfolding receive
receive-Lost p e s z l =
    let (c, m) = readmbx_lem e s in
    if-elim (λ (f : M ℕ). Lost p (f e s).1) (can_receive s)
      (λ _. drop_repeated-Lost p e _ z (
        drop_invalid-Lost p e _ z (record {
          waits = ap (λ f. f p) c ∙ ground (arith, l.waits, z);
          not_posted = λ h. l.not_posted (sym (ap (λ b. b.posted) m) ∙ h);
          not_kept = λ h. l.not_kept (sym (ap (λ b. b.kept) m) ∙ h);
        })))
      (λ _. l)

step-Lost : (p : ℕ) (e : Env) (s : Slave) → p ≢ 0 → Lost p s → Lost p (mbx_step e s).1
unfolding mbx_step
step-Lost p e s z l =
    if-elim (λ (m : M ℕ). Lost p (m e s).1) (was_read s) (λ _. read-Lost p e s z l)
      (λ _.
        if-elim (λ (m : M ℕ). Lost p (m e s).1) (is_repeated s) (λ _. repeat-Lost p e s l)
          (λ _. receive-Lost p e _ z (send-Lost p e s l)))

mbxprocess-Lost : (p : ℕ) (e : Env) (s : Slave) → p ≢ 0 → Lost p s → Lost p (mbxprocess e s).1
unfolding mbxprocess refresh_status
mbxprocess-Lost p e s z l =
    let (c, m) = sm_status_lem 0 e s in
    let (c', m') = sm_status_lem 1 e (sm_status 0 e s).1 in
    if-elim (λ (f : M ℕ). Lost p (f e s).1) s.mbx.run
      (λ _. step-Lost p e _ z (
        if-elim (λ (f : M (Unit {0})). Lost p (f e s).1)
          (has_bit s.io.al_event Event.sm0 || has_bit s.io.al_event Event.sm1)
          (λ _. record {
            waits = ap (λ f. f p) (c' ∙ c) ∙ l.waits;
            not_posted = λ h. l.not_posted (sym (ap (λ b. b.posted) (m' ∙ m)) ∙ h);
            not_kept = λ h. l.not_kept (sym (ap (λ b. b.kept) (m' ∙ m)) ∙ h);
          })
          (λ _. l)))
      (λ _. l)

-- The calls of ESC_mbxprocess from a state on. Between them the rest of the stack and the controller may do
-- anything that leaves alone buffer `p` and the records of the posted and the kept buffer.
pub data Runs (p : ℕ) (e : Env) : Slave → Slave → Type 0 where
  done : (s : Slave) → Runs p e s s
  call : (s t : Slave) → Runs p e (mbxprocess e s).1 t → Runs p e s t
  other :
      (s s' t : Slave)
      → s'.control p ≡ s.control p
      → s'.mbx.posted ≡ s.mbx.posted
      → s'.mbx.kept ≡ s.mbx.kept
      → Runs p e s' t
      → Runs p e s t

Runs-Lost : (p : ℕ) (e : Env) (s t : Slave) → p ≢ 0 → Runs p e s t → Lost p s → Lost p t
Runs-Lost p e _ _ z (done s) l = l
Runs-Lost p e _ _ z (call s t r) l = Runs-Lost p e _ t z r (mbxprocess-Lost p e s z l)
Runs-Lost p e _ _ z (other s s' t c q k r) l = Runs-Lost p e s' t z r (record {
  waits = c ∙ l.waits;
  not_posted = λ h. l.not_posted (sym q ∙ h);
  not_kept = λ h. l.not_kept (sym k ∙ h);
})

-- If the master reads the posted buffer `p`, which is not the kept one, so that the SyncManager reports the
-- outbox empty while the event register does not report the read yet, and another buffer is queued, then
-- after one step of the mailbox protocol `p` is lost: whatever calls of ESC_mbxprocess follow, with the
-- controller's answers, and whatever else happens that leaves `p` and the two records alone, `p` goes on waiting as a
-- posted buffer that is recorded neither as posted nor as kept.
pub mbx_step-Lost :
    (e : Env) (s t : Slave) (p n : ℕ)
    → s.mbx.posted ≡ p
    → p ≢ 0
    → s.control p ≡ outpost
    → s.mbx.kept ≢ p
    → has_bit s.io.al_event Event.sm1 ≡ false
    → mbx_stat (s.sm 1) ≡ 0
    → is_repeated s ≡ false
    → s.mbx.txcue ≢ 0
    → (outreqbuffer e s).0 ≡ n
    → n ≢ 0
    → s.control n ≡ outreq
    → Runs p e (mbx_step e s).1 t
    → Lost p t
mbx_step-Lost e s t p n at nonzero at_p kept unread empty same queued found pos at_n r =
    let o =
      mbx_step-Orphaned e s p n at nonzero at_p kept unread empty same queued found pos at_n in
    Runs-Lost p e _ t nonzero r (record {
      waits = o.kept;
      not_posted = λ h. o.others (sym h ∙ o.recorded);
      not_kept = o.not_kept;
    })

-- ===== src/Mailbox/Keeps.antt =====
-- ESC_mbxprocess, ESC_xoeprocess and ESC_stopmbx keep the mailbox layer's invariant.
use soes.Base.{
  ℕ, ◌-◌, ◌≤◌, ◌<◌, ◌≡◌, ◌≢◌, refl, true, false, ◌==◌, if◌then◌else◌, arith, if-elim, Bool-cases,
  inl, inr, has_bit, not, ◌&&◌, ◌||◌, ltb, sub32,
}
use soes.Base.Order.{scan_down-le, scan_down-wanted}
use soes.Slave.{
  M, set_control, when, MbxState, idle, inclaim, outreq, outpost, backup, again, Env, Slave, update,
  esc_read, esc_write,
}
use soes.Base.Memory.{load16, load_high}
use soes.Codes.{mbx_header_size}
use soes.Codes.MbxErr
use soes.Codes.Event
use soes.Bus.{sm_status, sm_write_pdi, sm_enable, sm_disable, ec_rep, mbx_stat}
use soes.Bus.Frame.{sm_enable-OnlySm, sm_disable-OnlySm}
use soes.Mailbox.Buffers.{outreqbuffer, writembx, ackmbxread, is_inclaim, is_outreq}
use soes.Mailbox.Transfer.{
  can_send, can_receive, was_read, is_repeated, dispose_backup, rotate_backup, read_by_master,
  ack_repeat, repeat, repeat_request, post, send_queued, drop_invalid, drop_repeated, receive,
  mbx_step, refresh_status, mbxprocess, xoeprocess,
}
use soes.Mailbox.Valid.{
  inbox-IsValid, post-IsValid, rotate-IsValid, again-IsValid, same-IsValid, writembx_lem,
  ackmbxread_lem, readmbx_lem,
}
use soes.Mailbox.Claim.{IsValidAt, mbx_error-IsValid}

dispose_backup_lem :
    (e : Env) (s : Slave)
    → let t = (dispose_backup e s).1 in
      (t.control ≡ (if s.mbx.kept == 0 then s.control else update s.control s.mbx.kept idle))
      × (t.mbx ≡ s.mbx)
unfolding dispose_backup
dispose_backup_lem e s = ground arith

pub read_by_master_lem :
    (e : Env) (s : Slave)
    → let t = (read_by_master e s).1 in
      (t.control
        ≡ update
            (if s.mbx.kept == 0 then s.control else update s.control s.mbx.kept idle)
            s.mbx.posted
            backup)
      × (t.mbx.posted ≡ 0)
      × (t.mbx.kept ≡ s.mbx.posted)
      × (t.mbx.txcue ≡ s.mbx.txcue)
unfolding read_by_master rotate_backup
read_by_master_lem e s =
    let a = (ackmbxread e s).1 in
    let b = (dispose_backup e a).1 in
    ground (arith, ackmbxread_lem e s, dispose_backup_lem e a, writembx_lem b.mbx.posted e b)

read_by_master-IsValid :
    (e : Env) (s : Slave) → IsValidAt e s → s.mbx.posted ≢ 0 → IsValidAt e (read_by_master e s).1
read_by_master-IsValid e s v z =
    let (c, p, k, t) = read_by_master_lem e s in
    rw c (rotate-IsValid e.buffers s.control s.mbx _ v z p k t)

pub sm_status_lem :
    (n : ℕ) (e : Env) (s : Slave)
    → let t = (sm_status n e s).1 in (t.control ≡ s.control) × (t.mbx ≡ s.mbx)
unfolding sm_status esc_read
sm_status_lem n e s = ground arith

sm_write_pdi_lem :
    (n : ℕ) (e : Env) (s : Slave)
    → let t = (sm_write_pdi n e s).1 in (t.control ≡ s.control) × (t.mbx ≡ s.mbx)
unfolding sm_write_pdi esc_write
sm_write_pdi_lem n e s = ground arith

ack_repeat_lem :
    (e : Env) (s : Slave)
    → let t = (ack_repeat e s).1 in
      (t.control ≡ s.control) × (t.mbx ≡ record (s.mbx) { toggle = ec_rep (s.sm 1) })
unfolding ack_repeat sm_write_pdi esc_write
ack_repeat_lem e s = ground arith

pub repeat_lem :
    (e : Env) (s : Slave)
    → let t = (repeat e s).1 in
      (t.control ≡ (if s.mbx.posted == 0 then s.control else update s.control s.mbx.posted again))
      × (t.mbx.posted ≡ s.mbx.posted)
      × (t.mbx.kept ≡ s.mbx.kept)
      × (t.mbx.free ≡ false)
      × (t.mbx.txcue ≡ s.mbx.txcue)
unfolding repeat
repeat_lem e s =
    let d = (writembx s.mbx.kept e s).1 in
    let a = (sm_disable 1 e s).1 in
    let b = set_control s.mbx.posted again a in
    let c = (sm_enable 1 e b).1 in
    let f = (writembx s.mbx.kept e c).1 in
    ground (
      arith,
      writembx_lem s.mbx.kept e s,
      ack_repeat_lem e d,
      sm_disable-OnlySm 1 e s,
      sm_enable-OnlySm 1 e b,
      writembx_lem s.mbx.kept e c,
      ack_repeat_lem e f,
    )

pub post_lem :
    (n : ℕ) (e : Env) (s : Slave)
    → let t = (post n e s).1 in
      (t.control ≡ update s.control n outpost)
      × (t.mbx.posted ≡ n)
      × (t.mbx.kept ≡ s.mbx.kept)
      × (t.mbx.free ≡ false)
      × (t.mbx.txcue ≡ s.mbx.txcue - 1)
unfolding post
post_lem n e s =
    let a = (writembx n e s).1 in ground (arith, writembx_lem n e s, sm_status_lem 1 e a)

pub outreqbuffer_lem :
    (e : Env) (s : Slave)
    → let n = (outreqbuffer e s).0 in (n ≤ e.buffers - 1) × (0 < n → s.control n ≡ outreq)
unfolding outreqbuffer
outreqbuffer_lem e s = (scan_down-le _ _, λ h. is_outreq-eq _ (scan_down-wanted _ _ h))
  where
    is_outreq-eq : (v : MbxState) → is_outreq v ≡ true → v ≡ outreq
    is_outreq-eq v h = ground arith

-- While a buffer is posted and no event reports that the master has read it, the SyncManager
-- reports the outbox as full.
abbrev pub NoRace : Slave → Type 0
NoRace s = s.mbx.posted ≢ 0 → has_bit s.io.al_event Event.sm1 ≡ false → mbx_stat (s.sm 1) ≢ 0

post-IsValidAt :
    (n : ℕ) (e : Env) (s : Slave)
    → IsValidAt e s
    → 0 < n
    → n ≤ e.buffers - 1
    → s.control n ≡ outreq
    → s.mbx.posted ≡ 0
    → 0 < s.mbx.txcue
    → IsValidAt e (post n e s).1
post-IsValidAt n e s v p h c z t =
    let (c', q, k, f, t') = post_lem n e s in
    rw c' (post-IsValid e.buffers s.control s.mbx _ v n p h c z q k f (omega arith))

send_queued-IsValid :
    (e : Env) (s : Slave)
    → IsValidAt e s
    → (s.mbx.posted ≢ 0 → mbx_stat (s.sm 1) ≢ 0)
    → IsValidAt e (send_queued e s).1
unfolding send_queued outreqbuffer
send_queued-IsValid e s v r = elim (Bool-cases (can_send s)) [
  | inr p ↦ rw (p, when, if◌then◌else◌) v
  | inl p ↦
      let (le, is) = outreqbuffer_lem e s in
      elim (Bool-cases ((outreqbuffer e s).0 == 0)) [
        | inl q ↦ rw (p, q) v
        | inr q ↦
            rw (p, q)
              (post-IsValidAt _ e s v (ground arith) le (is (ground arith))
                (ground (arith, v.not_free)) (ground arith))
      ]
]

drop_invalid-IsValid : (e : Env) (s : Slave) → IsValidAt e s → IsValidAt e (drop_invalid e s).1
unfolding drop_invalid
drop_invalid-IsValid e s v =
    elim (Bool-cases
      ((load16 s.mem 0 == 0) || ltb (sub32 s.mbx.mb0.sml mbx_header_size) (load16 s.mem 0))) [
        | inl p ↦ rw p (
            inbox-IsValid e.buffers _ _ _ (mbx_error-IsValid MbxErr.invalid_header e s v) idle
              (inl refl) refl refl refl refl)
        | inr p ↦ rw p v
      ]

drop_repeated-IsValid : (e : Env) (s : Slave) → IsValidAt e s → IsValidAt e (drop_repeated e s).1
unfolding drop_repeated
drop_repeated-IsValid e s v =
    elim (Bool-cases (not (load_high s.mem 5 == 0) && (load_high s.mem 5 == s.mbx.incnt))) [
      | inl p ↦ rw p (inbox-IsValid e.buffers _ _ _ v idle (inl refl) refl refl refl refl)
      | inr p ↦ rw p (same-IsValid e.buffers _ _ _ v refl refl (inl refl) refl)
    ]

receive-IsValid : (e : Env) (s : Slave) → IsValidAt e s → IsValidAt e (receive e s).1
unfolding receive
receive-IsValid e s v = elim (Bool-cases (can_receive s)) [
  | inr p ↦ rw p v
  | inl p ↦
      let (c, m) = readmbx_lem e s in
      rw p (
        drop_repeated-IsValid e _ (
          drop_invalid-IsValid e _
            (rw (c, m) (inbox-IsValid e.buffers _ _ _ v inclaim (inr refl) refl refl refl refl))))
]

repeat_request-IsValid : (e : Env) (s : Slave) → IsValidAt e s → IsValidAt e (repeat_request e s).1
unfolding repeat_request
repeat_request-IsValid e s v =
    elim (Bool-cases (not (s.mbx.posted == 0) || not (s.mbx.kept == 0))) [
      | inr p ↦ rw p v
      | inl p ↦
          let (c, q, k, f, t) = repeat_lem e s in
          elim (Bool-cases (s.mbx.posted == 0)) [
            | inl z ↦ rw (p, c, z) (same-IsValid e.buffers _ _ _ v q k (inr f) t)
            | inr z ↦ rw (p, c, z) (again-IsValid e.buffers _ _ _ v (ground arith) q k f t)
          ]
    ]

mbx_step-IsValid : (e : Env) (s : Slave) → IsValidAt e s → NoRace s → IsValidAt e (mbx_step e s).1
unfolding mbx_step
mbx_step-IsValid e s v r = elim (Bool-cases (was_read s)) [
  | inl p ↦ rw p (read_by_master-IsValid e s v (ground arith))
  | inr p ↦ elim (Bool-cases (is_repeated s)) [
    | inl q ↦ rw (p, q) (repeat_request-IsValid e s v)
    | inr q ↦ rw (p, q) (receive-IsValid e _ (send_queued-IsValid e s v (ground arith)))
  ]
]

refresh_status-IsValid : (e : Env) (s : Slave) → IsValidAt e s → IsValidAt e (refresh_status e s).1
unfolding refresh_status
refresh_status-IsValid e s v =
    let a = (sm_status 0 e s).1 in
    let (c, m) = sm_status_lem 0 e s in
    let (c', m') = sm_status_lem 1 e a in
    if-elim (λ (f : M (Unit {0})). IsValidAt e (f e s).1)
      (has_bit s.io.al_event Event.sm0 || has_bit s.io.al_event Event.sm1)
      (λ p. rw (c', m', c, m) v) (λ p. v)

-- A step of the mailbox protocol keeps the mailbox layer's invariant, unless it races with the
-- master: after the status is refreshed, the SyncManager may not report the outbox empty while
-- the event register does not yet report the posted buffer as read.
pub mbxprocess-IsValid :
    (e : Env) (s : Slave)
    → IsValidAt e s
    → NoRace (refresh_status e s).1
    → IsValidAt e (mbxprocess e s).1
unfolding mbxprocess
mbxprocess-IsValid e s v r =
    if-elim (λ (f : M ℕ). IsValidAt e (f e s).1) s.mbx.run
      (λ p. mbx_step-IsValid e _ (refresh_status-IsValid e s v) r) (λ p. v)

-- The handler of unsupported messages keeps the mailbox layer's invariant.
pub xoeprocess-IsValid : (e : Env) (s : Slave) → IsValidAt e s → IsValidAt e (xoeprocess e s).1
unfolding xoeprocess
xoeprocess-IsValid e s v =
    if-elim (λ (f : M (Unit {0})). IsValidAt e (f e s).1)
      (s.mbx.run && (s.mbx.xoe == 0) && is_inclaim (s.control 0))
      (λ p.
        inbox-IsValid e.buffers _ _ _ (mbx_error-IsValid _ e s v) idle (inl refl) refl refl refl
          refl)
      (λ p. v)

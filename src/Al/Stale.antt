-- ===== src/Al/Stale.antt =====
-- The end of a request for OP, and the request that ESC_sm_act_event leaves waiting (soes/esc.c).
use soes.Base.{
  ℕ, ◌/◌, ◌%◌, ◌≡◌, refl, ◌∙◌, ap, ◌⊎◌, inl, inr, true, false, not, ◌&&◌, ◌==◌, ltb, leb, if-elim,
  has_bit, arith, set_bit,
}
use soes.Codes.{esc_op, esc_boot}
use soes.Codes.Event
use soes.Codes.AlErr
use soes.Slave.{Env, Slave, M, set_sync, when, esc_read, esc_write, call_hook}
use soes.Bus.{al_error, al_status, sm_ack, sm_enable, sm_disable}
use soes.Mailbox.{stopmbx}
use soes.Al.Managers.{init_error, preop_error, has_error, check_mbx, check_sm23}
use soes.Al.Outputs.{stopoutput, stopinput, startoutput, run_hook, post_hook, set_app}
use soes.Al.Request.{masked, safeop_error}
use soes.Al.Events.{
  ack_all, sm_changed, sm_act_event, step_down_init, step_down_preop, account_period, grant_op,
  refuse_op, op_pending_step, is_synchronised, pending_timeout_ns, missing,
}
use soes.Al.Steady.{
  Steady-trans, al_error-Steady, startoutput-pending, sm_disable-Steady, app_safe_state-Steady,
  stopmbx-Steady, check_mbx-Steady, check_sm23-Steady, sm_error-Steady,
}
use soes.Al.Invariant.{KeepsState, clear_error-Steady}
use soes.Al.Pending.{Period, step}

-- The state with a period accounted.
abbrev pub accounted : Env → Slave → Period → Slave
accounted e s p = (account_period p.sync0 p.sm_event p.elapsed_ns e s).1

-- The three ends of a period of a waiting request.
pub record Granted (s t : Slave) : Type 0 where
  pub synchronised : is_synchronised s ≡ true
  pub status : t.al.status ≡ esc_op
  pub output : has_bit t.al.app_state 2 ≡ true
  pub decided : t.sync.op_pending ≡ false

pub record Refused (s t : Slave) : Type 0 where
  pub unsynchronised : is_synchronised s ≡ false
  pub old : leb pending_timeout_ns s.sync.op_pending_ns ≡ true
  pub status : t.al.status ≡ safeop_error
  pub error : t.al.error ≡ missing s
  pub app : t.al.app_state ≡ s.al.app_state
  pub decided : t.sync.op_pending ≡ false

pub record Continued (s t : Slave) : Type 0 where
  pub unsynchronised : is_synchronised s ≡ false
  pub young : leb pending_timeout_ns s.sync.op_pending_ns ≡ false
  pub same : t ≡ s

startoutput-output :
    (state : ℕ) (e : Env) (s : Slave) → has_bit (startoutput state e s).1.al.app_state 2 ≡ true
unfolding startoutput
startoutput-output state e s = set (when (ltb 0 s.al.sm2_sml) (sm_enable 2) e s).1
  where
    set : (t : Slave) → has_bit (set_bit t.al.app_state 2) 2 ≡ true
    set t = ground arith

grant_op-Granted :
    (e : Env) (s : Slave)
    → KeepsState e.al.post_state_change
    → is_synchronised s ≡ true
    → Granted s (grant_op e s).1
unfolding grant_op post_hook al_status esc_write
grant_op-Granted e s post h =
    let before = set_sync (λ y. record y { op_pending = false }) s in
    let t = (startoutput esc_op e before).1 in
    let v = (run_hook e.al.post_state_change t.io.log 0x84 esc_op).1 in
    let steady = clear_error-Steady v e t in
    record {
      synchronised = h;
      status = ap (λ a. a.1) (post t.io.log 0x84 esc_op);
      output = ap (λ a. has_bit a 2) steady.app ∙ startoutput-output esc_op e before;
      decided = steady.pending ∙ startoutput-pending esc_op e before;
    }

refuse_op-Refused :
    (e : Env) (s : Slave)
    → is_synchronised s ≡ false
    → leb pending_timeout_ns s.sync.op_pending_ns ≡ true
    → Refused s (refuse_op e s).1
unfolding refuse_op al_status al_error esc_write
refuse_op-Refused e s h old = record {
  unsynchronised = h;
  old = old;
  status = refl;
  error = refl;
  app = refl;
  decided = refl;
}

-- How a period ends, in terms of the state with the period accounted.
pub step_ends :
    (e : Env) (s : Slave) (p : Period)
    → KeepsState e.al.post_state_change
    → s.sync.op_pending ≡ true
    → Granted (accounted e s p) (step e s p)
      ⊎ (Refused (accounted e s p) (step e s p) ⊎ Continued (accounted e s p) (step e s p))
unfolding op_pending_step
step_ends e s p post h =
    let t = accounted e s p in
    if-elim
      (λ (m : M (Unit {0})). Granted t (m e s).1 ⊎ (Refused t (m e s).1 ⊎ Continued t (m e s).1))
      (not s.sync.op_pending) (λ q. ground arith)
      (λ _.
        if-elim
          (λ (m : M (Unit {0})).
            Granted t (m e t).1 ⊎ (Refused t (m e t).1 ⊎ Continued t (m e t).1))
          (is_synchronised t) (λ q. inl (grant_op-Granted e t post q))
          (λ q.
            if-elim
              (λ (m : M (Unit {0})).
                Granted t (m e t).1 ⊎ (Refused t (m e t).1 ⊎ Continued t (m e t).1))
              (leb pending_timeout_ns t.sync.op_pending_ns)
              (λ r. inr (inl (refuse_op-Refused e t q r)))
              (λ r. inr (inr (record { unsynchronised = q; young = r; same = refl })))))

-- The operations that ESC_sm_act_event uses to step down leave a request waiting.
abbrev KeepsRequest : M (Unit {0}) → Type 0
KeepsRequest m = (e : Env) (s : Slave) → (m e s).1.sync.op_pending ≡ s.sync.op_pending

stopoutput-KeepsRequest : KeepsRequest stopoutput
unfolding stopoutput
stopoutput-KeepsRequest e s =
    (Steady-trans (sm_disable-Steady 2 e (set_app (λ a. a % 2) e s).1)
      (app_safe_state-Steady e _)).pending

stopinput-KeepsRequest : KeepsRequest stopinput
unfolding stopinput call_hook
stopinput-KeepsRequest e s =
    let t = (sm_disable 2 e (sm_disable 3 e (set_app (λ _. 0) e s).1).1).1 in
    let kept : t.sync.op_pending ≡ s.sync.op_pending =
      (Steady-trans (sm_disable-Steady 3 e (set_app (λ _. 0) e s).1)
        (sm_disable-Steady 2 e _)).pending in
    if-elim (λ (m : M (Unit {0})). (m e t).1.sync.op_pending ≡ s.sync.op_pending)
      (e.al.use_interrupt && e.al.has_irq_disable) (λ _. kept) (λ _. kept)

step_down_init-KeepsRequest : (ax : ℕ) → KeepsRequest (step_down_init ax)
unfolding step_down_init al_status esc_write
step_down_init-KeepsRequest ax e s =
    if-elim (λ (m : M (Unit {0})). (rest (m e s).1).sync.op_pending ≡ s.sync.op_pending)
      (not (s.al.app_state == 0))
      (λ _. rest-pending _ ∙ stopinput-KeepsRequest e _ ∙ stopoutput-KeepsRequest e s)
      (λ _. rest-pending s)
  where
    rest : Slave → Slave
    rest t = (al_error AlErr.invalid_mbx_config e (stopmbx e t).1).1

    rest-pending : (t : Slave) → (rest t).sync.op_pending ≡ t.sync.op_pending
    rest-pending t = (Steady-trans (stopmbx-Steady e t) (al_error-Steady _ e _)).pending

step_down_preop-KeepsRequest : (ax : ℕ) → KeepsRequest (step_down_preop ax)
unfolding step_down_preop al_status esc_write
step_down_preop-KeepsRequest ax e s =
    (sm_error-Steady e _).pending ∙ stopinput-KeepsRequest e _ ∙ stopoutput-KeepsRequest e s

sm_changed-KeepsRequest : (ac an as_ : ℕ) → KeepsRequest (sm_changed ac an as_)
unfolding sm_changed
sm_changed-KeepsRequest ac an as_ e s =
    let one = check_mbx as_ e s in
    let two = check_sm23 as_ e one.1 in
    let kept = (Steady-trans (check_mbx-Steady as_ e s) (check_sm23-Steady as_ e one.1)).pending in
    if-elim (λ (m : M (Unit {0})). (m e two.1).1.sync.op_pending ≡ s.sync.op_pending)
      (has_error an && not (has_error ac)) (λ _. kept)
      (λ _.
        if-elim (λ (m : M (Unit {0})). (m e two.1).1.sync.op_pending ≡ s.sync.op_pending)
          (one.0 == init_error) (λ _. step_down_init-KeepsRequest one.0 e two.1 ∙ kept)
          (λ _.
            if-elim (λ (m : M (Unit {0})). (m e two.1).1.sync.op_pending ≡ s.sync.op_pending)
              (not (two.1.al.app_state == 0) && (two.0 == preop_error))
              (λ _. step_down_preop-KeepsRequest two.0 e two.1 ∙ kept) (λ _. kept)))

sm_act_event-KeepsRequest : KeepsRequest sm_act_event
unfolding sm_act_event ack_all sm_ack esc_read
sm_act_event-KeepsRequest e s =
    let ac = s.al.control % 32 in
    let as_ = s.al.status % 32 in
    if-elim (λ (m : M (Unit {0})). (m e s).1.sync.op_pending ≡ s.sync.op_pending)
      (not (has_bit s.io.al_event Event.sm_change)) (λ _. refl)
      (λ _.
        if-elim (λ (m : M (Unit {0})). (m e s).1.sync.op_pending ≡ s.sync.op_pending)
          (not (as_ / 2 % 8 == 0) && not (as_ == esc_boot) && s.mbx.run)
          (λ _. sm_changed-KeepsRequest (masked ac ac) (masked ac as_) as_ e s) (λ _. refl))

-- A request for OP outlives ESC_sm_act_event, whatever AL status that leaves, down to INIT with an error:
-- if the period after it counts as synchronised, the slave goes to OP with the outputs on.
pub stale_request :
    (e : Env) (s : Slave) (p : Period)
    → KeepsState e.al.post_state_change
    → s.sync.op_pending ≡ true
    → is_synchronised (accounted e (sm_act_event e s).1 p) ≡ true
    → Granted (accounted e (sm_act_event e s).1 p) (step e (sm_act_event e s).1 p)
stale_request e s p post h sync =
    elim (step_ends e (sm_act_event e s).1 p post (sm_act_event-KeepsRequest e s ∙ h)) [
      | inl granted ↦ granted
      | inr other ↦ elim other [
        | inl refused ↦ ground (arith, sync, refused.unsynchronised)
        | inr continued ↦ ground (arith, sync, continued.unsynchronised)
      ]
    ]

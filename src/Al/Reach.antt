-- ===== src/Al/Reach.antt =====
-- Sequences of calls of the AL handlers of soes/esc.c and the outputs.
use soes.Base.{
  ℕ, ◌/◌, ◌%◌, ◌≡◌, refl, ◌∙◌, ap, inl, inr, Bool, false, not, ◌&&◌, ◌==◌, leb, if-elim, has_bit,
  arith,
}
use soes.Codes.{esc_op, esc_boot}
use soes.Codes.Event
use soes.Slave.{Env, Slave, M, set_sync, when, esc_read}
use soes.Bus.{sm_ack}
use soes.Al.Outputs.{stopoutput, startoutput, run_hook, post_hook, pre_hook, al_status_goto_error}
use soes.Al.Request.{masked, esc_state, safeop_error}
use soes.Al.Events.{
  ack_all, sm_act_event, account_period, grant_op, refuse_op, op_pending_step, is_synchronised,
  pending_timeout_ns,
}
use soes.Al.Steady.{startoutput-pending, Steady, al_error-Steady}
use soes.Al.Off.{IsOff, Steady-IsOff, stopoutput-IsOff}
use soes.Al.Invariant.{
  IsSafe, KeepsState, Steady-IsSafe, al_status-IsSafe, clear_error-Steady, esc_state-IsSafe,
  sm_changed-IsSafe,
}

ack_all-Steady : (e : Env) (s : Slave) → Steady s (ack_all e s).1
unfolding ack_all sm_ack esc_read
ack_all-Steady e s = record { status = refl; app = refl; pending = refl }

pub sm_act_event-IsSafe : (e : Env) (s : Slave) → IsSafe s → IsSafe (sm_act_event e s).1
unfolding sm_act_event
sm_act_event-IsSafe e s safe =
    let ac = s.al.control % 32 in
    let as_ = s.al.status % 32 in
    if-elim (λ (m : M (Unit {0})). IsSafe (m e s).1) (not (has_bit s.io.al_event Event.sm_change))
      (λ _. safe)
      (λ _.
        if-elim (λ (m : M (Unit {0})). IsSafe (m e s).1)
          (not (as_ / 2 % 8 == 0) && not (as_ == esc_boot) && s.mbx.run)
          (λ _. sm_changed-IsSafe (masked ac ac) (masked ac as_) as_ e s safe)
          (λ _. Steady-IsSafe (ack_all-Steady e s) safe))

grant_op-IsSafe :
    (e : Env) (s : Slave) → KeepsState e.al.post_state_change → IsSafe (grant_op e s).1
unfolding grant_op post_hook startoutput
grant_op-IsSafe e s post =
    let before = set_sync (λ y. record y { op_pending = false }) s in
    let t = (startoutput esc_op e before).1 in
    let v = (run_hook e.al.post_state_change t.io.log 0x84 esc_op).1 in
    let h = post t.io.log 0x84 esc_op in
    al_status-IsSafe v esc_op e _ (ap (λ v. v.1 % 16) h)
      (inr (refl, (clear_error-Steady v e t).pending ∙ startoutput-pending esc_op e before))

refuse_op-IsSafe : (e : Env) (s : Slave) → IsOff s → IsSafe (refuse_op e s).1
unfolding refuse_op
refuse_op-IsSafe e s off =
    al_status-IsSafe safeop_error safeop_error e _ refl
      (inl (Steady-IsOff (al_error-Steady _ e _) off))

account_period-Steady :
    (sync0 sm : Bool) (ns : ℕ) (e : Env) (s : Slave) → Steady s (account_period sync0 sm ns e s).1
unfolding account_period
account_period-Steady sync0 sm ns e s = record { status = refl; app = refl; pending = refl }

pub op_pending_step-IsSafe :
    (sync0 sm : Bool) (ns : ℕ) (e : Env) (s : Slave)
    → KeepsState e.al.post_state_change
    → IsSafe s
    → IsSafe (op_pending_step sync0 sm ns e s).1
unfolding op_pending_step
op_pending_step-IsSafe sync0 sm ns e s post safe =
    let t = (account_period sync0 sm ns e s).1 in
    let steady = account_period-Steady sync0 sm ns e s in
    if-elim (λ (m : M (Unit {0})). IsSafe (m e s).1) (not s.sync.op_pending) (λ _. safe)
      (λ p.
        if-elim (λ (m : M (Unit {0})). IsSafe (m e t).1) (is_synchronised t)
          (λ _. grant_op-IsSafe e t post)
          (λ _.
            if-elim (λ (m : M (Unit {0})). IsSafe (m e t).1)
              (leb pending_timeout_ns t.sync.op_pending_ns)
              (λ _. refuse_op-IsSafe e t (Steady-IsOff steady (waiting p)))
              (λ _. Steady-IsSafe steady safe)))
  where
    waiting : not s.sync.op_pending ≡ false → IsOff s
    waiting p = elim safe [ inl off ↦ off | inr op ↦ ground arith ]

stop_active-IsOff : (e : Env) (s : Slave) → IsOff (when (has_bit s.al.app_state 2) stopoutput e s).1
stop_active-IsOff e s =
    if-elim (λ (m : M (Unit {0})). IsOff (m e s).1) (has_bit s.al.app_state 2)
      (λ _. stopoutput-IsOff e s) (λ p. ground arith)

pub al_status_goto_error-IsSafe :
    (status error : ℕ) (e : Env) (s : Slave)
    → IsSafe s
    → IsSafe (al_status_goto_error status error e s).1
unfolding al_status_goto_error pre_hook post_hook
al_status_goto_error-IsSafe status error e s safe =
    if-elim (λ (m : M (Unit {0})). IsSafe (m e s).1) (has_bit status esc_op) (λ _. safe)
      (λ _.
        let stopped = (when (has_bit s.al.app_state 2) stopoutput e s).1 in
        al_status-IsSafe status status e _ refl (
          inl (
            Steady-IsOff
              (al_error-Steady error e (set_sync (λ y. record y { op_pending = false }) stopped))
              (stop_active-IsOff e s))))

-- One call of a handler, between which the events, the controller's registers and everything that the
-- handlers do not keep may change.
pub data Call (e : Env) (s : Slave) : Slave → Type 0 where
  by_state : Call e s (esc_state e s).1
  by_sm_change : Call e s (sm_act_event e s).1
  by_period : (sync0 sm : Bool) (ns : ℕ) → Call e s (op_pending_step sync0 sm ns e s).1
  by_error : (status error : ℕ) → Call e s (al_status_goto_error status error e s).1
  -- Work outside the AL state machine, which leaves its status alone.
  by_others : (t : Slave) → Steady s t → Call e s t

pub data Calls (e : Env) (s : Slave) : Slave → Type 0 where
  started : Calls e s s
  then_call : {t u : Slave} → Calls e s t → Call e t u → Calls e s u

Call-IsSafe :
    {e : Env} {s t : Slave}
    → KeepsState e.al.pre_state_change
    → KeepsState e.al.post_state_change
    → Call e s t
    → IsSafe s
    → IsSafe t
Call-IsSafe {e} {s} pre post by_state safe = esc_state-IsSafe e s pre post safe
Call-IsSafe {e} {s} pre post by_sm_change safe = sm_act_event-IsSafe e s safe
Call-IsSafe {e} {s} pre post (by_period sync0 sm ns) safe =
    op_pending_step-IsSafe sync0 sm ns e s post safe
Call-IsSafe {e} {s} pre post (by_error status error) safe =
    al_status_goto_error-IsSafe status error e s safe
Call-IsSafe pre post (by_others t steady) safe = Steady-IsSafe steady safe

-- With state change hooks that keep the transition, every sequence of calls of ESC_state,
-- ESC_sm_act_event, ESC_op_pending_step and ESC_ALstatusgotoerror, with other work between them that
-- leaves the AL status, the application's state and a waiting request alone, keeps the outputs safe: if
-- at first the outputs are off, or AL status is OP with no request for OP waiting, so it is at the end.
pub Calls-IsSafe :
    {e : Env} {s t : Slave}
    → KeepsState e.al.pre_state_change
    → KeepsState e.al.post_state_change
    → Calls e s t
    → IsSafe s
    → IsSafe t
Calls-IsSafe pre post started safe = safe
Calls-IsSafe pre post (then_call calls call) safe =
    Call-IsSafe pre post call (Calls-IsSafe pre post calls safe)

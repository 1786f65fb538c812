-- ===== src/Al/Off.antt =====
-- The operations of soes/esc.c after which the outputs are off, or stay off.
use soes.Base.{
  ℕ, ◌/◌, ◌%◌, ◌≡◌, refl, ◌⊎◌, inl, inr, ◌∙◌, ap, Bool, true, false, not, ◌&&◌, arith, ◌==◌, ltb,
  if-elim, set_bit,
}
use soes.Codes.{esc_op, esc_safeop, esc_error}
use soes.Codes.AlErr
use soes.Slave.{Env, Slave, M, when, call_hook}
use soes.Bus.{al_error, sm_enable, sm_disable}
use soes.Mailbox.{stopmbx}
use soes.Al.Managers.{check_sm23, check_dc, preop_error}
use soes.Al.Outputs.{set_app, stopoutput, stopinput, startinput, start_inputs, check_sync}
use soes.Al.Request.{
  refuse, leave, flag_input, size_sm2, size_sm3, enter_safeop, op_to_boot, unknown_request,
  report_unknown,
}
use soes.Al.Steady.{
  Steady, Steady-trans, al_error-Steady, sm_enable-Steady, sm_disable-Steady, sm_error-Steady,
  app_safe_state-Steady, stopmbx-Steady, check_sm23-Steady, check_dc-app,
}

-- APPSTATE_OUTPUT is not set.
abbrev pub IsOff : Slave → Type 0
IsOff s = s.al.app_state / 2 % 2 ≡ 0

pub Steady-IsOff : {s t : Slave} → Steady s t → IsOff s → IsOff t
Steady-IsOff h off = ap (λ a. a / 2 % 2) h.app ∙ off

pub stopoutput-IsOff : (e : Env) (s : Slave) → IsOff (stopoutput e s).1
unfolding stopoutput
stopoutput-IsOff e s =
    Steady-IsOff
      (Steady-trans (sm_disable-Steady 2 e (set_app (λ a. a % 2) e s).1)
        (app_safe_state-Steady e _))
      (omega arith)

pub stopinput-IsOff : (e : Env) (s : Slave) → IsOff (stopinput e s).1
unfolding stopinput call_hook
stopinput-IsOff e s =
    let t = (sm_disable 2 e (sm_disable 3 e (set_app (λ _. 0) e s).1).1).1 in
    let off : IsOff t =
      Steady-IsOff
        (Steady-trans (sm_disable-Steady 3 e (set_app (λ _. 0) e s).1) (sm_disable-Steady 2 e _))
        refl in
    if-elim (λ (m : M (Unit {0})). IsOff (m e t).1) (e.al.use_interrupt && e.al.has_irq_disable)
      (λ _. off) (λ _. off)

start_inputs-IsOff : (state : ℕ) (e : Env) (s : Slave) → IsOff s → IsOff (start_inputs state e s).1
unfolding start_inputs
start_inputs-IsOff state e s off =
    if-elim (λ (m : M (Unit {0})). IsOff (m e s).1) (not (state == preop_error)) (λ _. refl)
      (λ _.
        Steady-IsOff
          (Steady-trans (Steady-trans (sm_disable-Steady 2 e s) (sm_disable-Steady 3 e _))
            (sm_error-Steady e _))
          off)

check_sync-IsOff : (state : ℕ) (e : Env) (s : Slave) → IsOff s → IsOff (check_sync state e s).1
unfolding check_sync call_hook
check_sync-IsOff state e s off =
    let r = check_dc e s in
    let kept : IsOff r.1 = ap (λ a. a / 2 % 2) (check_dc-app e s) ∙ off in
    if-elim (λ (m : M ℕ). IsOff (m e r.1).1) (ltb 0 r.0) (λ _. refl)
      (λ _.
        if-elim (λ (m : M (Unit {0})). IsOff (m e r.1).1) e.al.has_irq_enable (λ _. kept)
          (λ _. kept))

pub startinput-IsOff : (state : ℕ) (e : Env) (s : Slave) → IsOff s → IsOff (startinput state e s).1
unfolding startinput
startinput-IsOff state e s off =
    let r = check_sm23 state e s in
    let started = start_inputs-IsOff r.0 e r.1 (Steady-IsOff (check_sm23-Steady state e s) off) in
    if-elim (λ (m : M ℕ). IsOff (m e (start_inputs r.0 e r.1).1).1)
      (e.al.use_interrupt && not (r.0 == preop_error)) (λ _. check_sync-IsOff r.0 e _ started)
      (λ _. started)

pub refuse-IsOff : (an error : ℕ) (e : Env) (s : Slave) → IsOff s → IsOff (refuse an error e s).1
unfolding refuse
refuse-IsOff an error e s off = Steady-IsOff (al_error-Steady error e s) off

flag_input-IsOff : (e : Env) (s : Slave) → IsOff s → IsOff (flag_input e s).1
unfolding flag_input
flag_input-IsOff e s off =
    if-elim (λ (m : M (Unit {0})). IsOff (m e s).1) ((s.al.sm2_sml == 0) && ltb 0 s.al.sm3_sml)
      (λ _. Steady-IsOff (sm_disable-Steady 3 e s) off) (λ _. off)

when_enable-IsOff :
    (b : Bool) (n : ℕ) (e : Env) (s : Slave) → IsOff s → IsOff (when b (sm_enable n) e s).1
when_enable-IsOff true n e s off = Steady-IsOff (sm_enable-Steady n e s) off
when_enable-IsOff false n e s off = off

pub enter_safeop-IsOff : (ac : ℕ) (e : Env) (s : Slave) → IsOff s → IsOff (enter_safeop ac e s).1
unfolding enter_safeop size_sm2 size_sm3
enter_safeop-IsOff ac e s off =
    let one = size_sm2 e s in
    let two = size_sm3 e one.1 in
    if-elim (λ (m : M ℕ). IsOff (m e one.1).1) (not one.0)
      (λ _. refuse-IsOff preop_error AlErr.invalid_output_sm e one.1 off)
      (λ _.
        if-elim (λ (m : M ℕ). IsOff (m e two.1).1) (not two.0)
          (λ _. refuse-IsOff preop_error AlErr.invalid_input_sm e two.1 off)
          (λ _.
            when_enable-IsOff ((startinput ac e two.1).0 == ac) 2 e _
              (startinput-IsOff ac e two.1 off)))

pub op_to_boot-IsOff : (e : Env) (s : Slave) → IsOff (op_to_boot e s).1
unfolding op_to_boot
op_to_boot-IsOff e s = flag_input-IsOff e _ (stopoutput-IsOff e _)

-- Whatever is stopped, the outputs end off if they were off before or are among it.
pub leave-IsOff :
    (o i b : Bool) (an : ℕ) (e : Env) (s : Slave)
    → (o ≡ true) ⊎ IsOff s
    → IsOff (leave o i b an e s).1
unfolding leave
leave-IsOff o i b an e s off = mailbox b _ (inputs i _ (outputs o off))
  where
    inputs : (i : Bool) (t : Slave) → IsOff t → IsOff (when i stopinput e t).1
    inputs true t h = stopinput-IsOff e t
    inputs false t h = h

    mailbox : (b : Bool) (t : Slave) → IsOff t → IsOff (when b stopmbx e t).1
    mailbox true t h = Steady-IsOff (stopmbx-Steady e t) h
    mailbox false t h = h

    outputs : (o : Bool) → (o ≡ true) ⊎ IsOff s → IsOff (when o stopoutput e s).1
    outputs true h = stopoutput-IsOff e s
    outputs false h = elim h [ inl p ↦ ground arith | inr off' ↦ off' ]

-- The outputs are off, or `an` is OP and no request for OP waits.
abbrev pub IsSafeAs : ℕ → Slave → Type 0
IsSafeAs an s = IsOff s ⊎ ((an % 16 ≡ 8) × (s.sync.op_pending ≡ false))

report_unknown-IsOff :
    (as_ an : ℕ) (e : Env) (s : Slave) → IsOff s → IsOff (report_unknown as_ an e s).1
unfolding report_unknown
report_unknown-IsOff as_ an e s h = Steady-IsOff (al_error-Steady AlErr.unknown_state e _) (
    if-elim (λ (m : M (Unit {0})). IsOff (m e s).1) (as_ == esc_safeop) (λ _. stopinput-IsOff e s)
      (λ _. h))

pub unknown_request-IsSafe :
    (as_ an : ℕ) (e : Env) (s : Slave)
    → IsSafeAs an s
    → IsSafeAs (unknown_request as_ an e s).0 (unknown_request as_ an e s).1
unfolding unknown_request report_unknown
unknown_request-IsSafe as_ an e s safe =
    if-elim (λ (m : M ℕ). IsSafeAs (m e s).0 (m e s).1) (an == esc_op)
      (λ _.
        inl (report_unknown-IsOff as_ esc_safeop e _ (flag_input-IsOff e _ (stopoutput-IsOff e s))))
      (λ _. elim safe [
        | inl off ↦ inl (report_unknown-IsOff as_ an e s off)
        | inr op ↦
            if-elim
              (λ (m : M (Unit {0})).
                IsSafeAs (set_bit an esc_error) (al_error AlErr.unknown_state e (m e s).1).1)
              (as_ == esc_safeop)
              (λ _.
                inl (Steady-IsOff (al_error-Steady AlErr.unknown_state e _) (stopinput-IsOff e s)))
              (λ _. inr (kept op.0, (al_error-Steady AlErr.unknown_state e s).pending ∙ op.1))
      ])
  where
    kept : an % 16 ≡ 8 → set_bit an esc_error % 16 ≡ 8
    kept h = ground arith

-- ===== src/Al/Invariant.antt =====
-- ESC_state and ESC_sm_act_event (soes/esc.c) and the outputs.
use soes.Base.{
  ℕ, ◌/◌, ◌%◌, ◌≡◌, refl, sym, ◌∙◌, ap, inl, inr, Bool, false, not, ◌&&◌, ◌||◌, Option, none, some,
  List, arith, ◌==◌, ltb, if◌then◌else◌, if-elim, eq-of-==, has_bit, set_bit,
}
use soes.Codes.{esc_op, esc_safeop, esc_boot}
use soes.Codes.AlErr
use soes.Codes.Event
use soes.Slave.{Access, Env, Slave, M, esc_read, esc_write, set_sync}
use soes.Bus.{al_error, al_status}
use soes.Mailbox.{stopmbx}
use soes.Al.Managers.{init_error, preop_error, has_error, check_mbx, check_sm23}
use soes.Al.Outputs.{run_hook, post_hook, pre_hook}
use soes.Al.Request.{
  change, clear_error, check_id_request, load_device_id, device_id, ask_device_id, id_request,
  answer, handle, transition, masked, read_control, esc_state,
}
use soes.Al.Events.{step_down_init, step_down_preop, sm_changed}
use soes.Al.Steady.{
  Steady, Steady-refl, Steady-trans, al_error-Steady, check_mbx-Steady, check_sm23-Steady,
  stopmbx-Steady, sm_error-Steady,
}
use soes.Al.Off.{IsOff, IsSafeAs, Steady-IsOff, stopinput-IsOff}
use soes.Al.Safety.{change-IsSafe}

-- The outputs are off, or AL status is OP and no request for OP waits.
abbrev pub IsSafe : Slave → Type 0
IsSafe s = IsSafeAs s.al.status s

-- A state change hook that does not change the transition that it is shown.
abbrev pub KeepsState : Option (List Access → ℕ → ℕ → ℕ × ℕ) → Type 0
KeepsState hook = (log : List Access) (as_ an : ℕ) → run_hook hook log as_ an ≡ (as_, an)

Steady-IsSafeAs : {s t : Slave} (an : ℕ) → Steady s t → IsSafeAs an s → IsSafeAs an t
Steady-IsSafeAs an h safe = elim safe [
  | inl off ↦ inl (Steady-IsOff h off)
  | inr op ↦ inr (op.0, h.pending ∙ op.1)
]

pub Steady-IsSafe : {s t : Slave} → Steady s t → IsSafe s → IsSafe t
Steady-IsSafe h safe = elim safe [
  | inl off ↦ inl (Steady-IsOff h off)
  | inr op ↦ inr (ap (λ v. v % 16) h.status ∙ op.0, h.pending ∙ op.1)
]

pub al_status-IsSafe :
    (v an : ℕ) (e : Env) (s : Slave) → v % 16 ≡ an % 16 → IsSafeAs an s → IsSafe (al_status v e s).1
unfolding al_status esc_write
al_status-IsSafe v an e s h safe = elim safe [ inl off ↦ inl off | inr op ↦ inr (h ∙ op.0, op.1) ]

pub clear_error-Steady : (an : ℕ) (e : Env) (s : Slave) → Steady s (clear_error an e s).1
unfolding clear_error
clear_error-Steady an e s =
    if-elim (λ (m : M (Unit {0})). Steady s (m e s).1) (not (has_error an) && not (s.al.error == 0))
      (λ _. al_error-Steady AlErr.none e s) (λ _. Steady-refl s)

check_id_request-Steady :
    (control an : ℕ) (e : Env) (s : Slave) → Steady s (check_id_request control an e s).1
unfolding check_id_request esc_read
check_id_request-Steady control an e s =
    if-elim (λ (m : M Bool). Steady s (m e s).1)
      (has_bit control id_request
        && not (control % 16 == esc_boot)
        && (ltb (control % 16) esc_safeop || (an == esc_safeop) || (an == esc_op)))
      (λ _. record { status = refl; app = refl; pending = refl }) (λ _. Steady-refl s)

ask_device_id-Steady :
    (handler : Option (List Access → Option ℕ)) (e : Env) (s : Slave)
    → Steady s (ask_device_id handler e s).1
unfolding ask_device_id esc_read
ask_device_id-Steady none e s = record { status = refl; app = refl; pending = refl }
ask_device_id-Steady (some get) e s = Steady-refl s

device_id-Steady : (e : Env) (s : Slave) → Steady s (device_id e s).1
unfolding device_id
device_id-Steady e s = ask_device_id-Steady e.al.get_device_id e s

load_device_id-Steady : (e : Env) (s : Slave) → Steady s (load_device_id e s).1
unfolding load_device_id
load_device_id-Steady e s =
    let r = device_id e s in
    if-elim (λ (m : M ℕ). Steady s (m e r.1).1) (not (r.0 == 0))
      (λ _. Steady-trans (device_id-Steady e s) (al_error-Steady r.0 e r.1))
      (λ _. device_id-Steady e s)

answer-IsSafe :
    (as_ an : ℕ) (e : Env) (s : Slave)
    → KeepsState e.al.post_state_change
    → IsSafeAs an s
    → IsSafe (answer as_ an e s).1
unfolding answer post_hook
answer-IsSafe as_ an e s keeps safe =
    let v = (run_hook e.al.post_state_change s.io.log as_ an).1 in
    let same : v ≡ an = ap (λ h. h.1) (keeps s.io.log as_ an) in
    let t = (clear_error v e s).1 in
    let asked = check_id_request t.al.control v e t in
    let before =
      Steady-trans (clear_error-Steady v e s) (check_id_request-Steady t.al.control v e t) in
    let put : (r : ℕ × Slave)
        → Steady s r.1
        → IsSafe (al_status (if r.0 == id_request then set_bit v id_request else v) e r.1).1 =
      λ r steady.
        al_status-IsSafe _ an e r.1 (low v an r.0 same) (Steady-IsSafeAs an steady safe) in
    if-elim
      (λ (m : M ℕ).
        IsSafe
          (al_status (if (m e asked.1).0 == id_request then set_bit v id_request else v) e
            (m e asked.1).1).1)
      asked.0
      (λ _. put (load_device_id e asked.1) (Steady-trans before (load_device_id-Steady e asked.1)))
      (λ _. put (0, asked.1) before)
  where
    low :
        (v an id : ℕ)
        → v ≡ an
        → (if id == id_request then set_bit v id_request else v) % 16 ≡ an % 16
    low v an id h = ground arith

handle-IsSafe :
    (ac an status : ℕ) (e : Env) (s : Slave)
    → KeepsState e.al.pre_state_change
    → KeepsState e.al.post_state_change
    → status % 16 ≡ an % 16
    → s.al.status % 16 ≡ an % 16
    → IsSafe s
    → IsSafe (handle ac an status e s).1
unfolding handle pre_hook
handle-IsSafe ac an status e s pre post from shown safe =
    if-elim (λ (m : M (Unit {0})). IsSafe (m e s).1) (has_error an && not (has_error ac))
      (λ _. safe)
      (λ _.
        if-elim (λ (m : M (Unit {0})). IsSafe (m e s).1)
          (s.sync.op_pending && (transition ac status == 0x84)) (λ _. safe)
          (λ _.
            if-elim (λ (m : M (Unit {0})). IsSafe (run (m e s).1)) s.sync.op_pending
              (λ _. run-IsSafe (set_sync (λ y. record y { op_pending = false }) s) safe_as refl)
              (λ p. run-IsSafe s safe_as' p)))
  where
    safe_as : IsSafeAs an (set_sync (λ y. record y { op_pending = false }) s)
    safe_as = elim safe [ inl off ↦ inl off | inr op ↦ inr (sym shown ∙ op.0, refl) ]

    safe_as' : IsSafeAs an s
    safe_as' = elim safe [ inl off ↦ inl off | inr op ↦ inr (sym shown ∙ op.0, op.1) ]

    hooked : Slave → ℕ × ℕ
    hooked t = run_hook e.al.pre_state_change t.io.log (transition ac status) an

    run : Slave → Slave
    run t = let r = change (hooked t).0 ac (hooked t).1 e t in (answer (hooked t).0 r.0 e r.1).1

    low : transition ac status % 16 ≡ an % 16
    low = omega arith

    high : transition ac status / 16 ≡ ac % 16
    high = omega arith

    run-IsSafe : (t : Slave) → IsSafeAs an t → t.sync.op_pending ≡ false → IsSafe (run t)
    run-IsSafe t safe' waits =
        let h = pre t.io.log (transition ac status) an in
        answer-IsSafe (hooked t).0 _ e _ post (
          change-IsSafe (hooked t).0 ac (hooked t).1 e t
            (ap (λ v. v.0 % 16) h ∙ low ∙ sym (ap (λ v. v.1 % 16) h))
            (elim safe' [ inl off ↦ inl off | inr op ↦ inr (ap (λ v. v.1 % 16) h ∙ op.0, op.1) ])
            waits (ap (λ v. v.0 / 16) h ∙ high))

-- A call of ESC_state keeps the outputs off outside OP, if the hooks keep the transition.
pub esc_state-IsSafe :
    (e : Env) (s : Slave)
    → KeepsState e.al.pre_state_change
    → KeepsState e.al.post_state_change
    → IsSafe s
    → IsSafe (esc_state e s).1
unfolding esc_state read_control esc_read
esc_state-IsSafe e s pre post safe =
    if-elim (λ (m : M (Unit {0})). IsSafe (m e s).1) (not (has_bit s.io.al_event Event.control))
      (λ _. safe)
      (λ _.
        let t = (read_control e s).1 in
        let ac = t.al.control % 32 in
        handle-IsSafe (masked ac ac) (masked ac (t.al.status % 32)) (t.al.status % 32) e t pre post
          (sym (masked_low ac t.al.status)) (masked_low' ac t.al.status) safe)
  where
    masked_low : (ac v : ℕ) → masked ac (v % 32) % 16 ≡ v % 32 % 16
    masked_low ac v = ground arith

    masked_low' : (ac v : ℕ) → v % 16 ≡ masked ac (v % 32) % 16
    masked_low' ac v = ground arith

step_down_init-IsSafe : (e : Env) (s : Slave) → IsSafe (step_down_init init_error e s).1
unfolding step_down_init al_status esc_write
step_down_init-IsSafe e s = inl (
    if-elim (λ (m : M (Unit {0})). IsOff (rest (m e s).1)) (not (s.al.app_state == 0))
      (λ _. rest-IsOff _ (stopinput-IsOff e _)) (λ p. rest-IsOff s (ground arith)))
  where
    rest : Slave → Slave
    rest t = (al_error AlErr.invalid_mbx_config e (stopmbx e t).1).1

    rest-IsOff : (t : Slave) → IsOff t → IsOff (rest t)
    rest-IsOff t h = Steady-IsOff (Steady-trans (stopmbx-Steady e t) (al_error-Steady _ e _)) h

step_down_preop-IsSafe : (v : ℕ) (e : Env) (s : Slave) → IsSafe (step_down_preop v e s).1
unfolding step_down_preop
step_down_preop-IsSafe v e s =
    al_status-IsSafe v v e _ refl (inl (Steady-IsOff (sm_error-Steady e _) (stopinput-IsOff e _)))

pub sm_changed-IsSafe :
    (ac an as_ : ℕ) (e : Env) (s : Slave) → IsSafe s → IsSafe (sm_changed ac an as_ e s).1
unfolding sm_changed
sm_changed-IsSafe ac an as_ e s safe =
    let one = check_mbx as_ e s in
    let two = check_sm23 as_ e one.1 in
    let kept =
      Steady-IsSafe (Steady-trans (check_mbx-Steady as_ e s) (check_sm23-Steady as_ e one.1))
        safe in
    if-elim (λ (m : M (Unit {0})). IsSafe (m e two.1).1) (has_error an && not (has_error ac))
      (λ _. kept)
      (λ _.
        if-elim (λ (m : M (Unit {0})). IsSafe (m e two.1).1) (one.0 == init_error)
          (λ p. subst-init one.0 (eq-of-== one.0 init_error p) two.1)
          (λ _.
            if-elim (λ (m : M (Unit {0})). IsSafe (m e two.1).1)
              (not (two.1.al.app_state == 0) && (two.0 == preop_error))
              (λ _. step_down_preop-IsSafe two.0 e two.1) (λ _. kept)))
  where
    subst-init : (v : ℕ) → v ≡ init_error → (t : Slave) → IsSafe (step_down_init v e t).1
    subst-init v h t = rw h (step_down_init-IsSafe e t)

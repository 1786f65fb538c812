-- ===== src/Al/Moves.antt =====
-- ESC_state (soes/esc.c) as a move in the graph of states.
use soes.Base.{
  refl, Bool, ltb, ℕ, ◌/◌, ◌%◌, ◌≡◌, sym, ◌∙◌, ap, true, false, not, ◌&&◌, arith, ◌==◌,
  if◌then◌else◌, if-elim, has_bit, set_bit,
}
use soes.Codes.Event
use soes.Slave.{Env, Slave, M, set_sync, esc_read, esc_write}
use soes.Bus.{al_status}
use soes.Al.Managers.{has_error}
use soes.Al.Outputs.{run_hook, pre_hook, post_hook}
use soes.Al.Request.{
  change, clear_error, check_id_request, load_device_id, id_request, answer, handle, transition,
  masked, read_control, esc_state,
}
use soes.Al.Invariant.{KeepsState}
use soes.Al.Graph.{has_edge, change-IsMove}

-- The AL status that the end of ESC_state writes has the state of its argument.
answer_state :
    (as_ an : ℕ) (e : Env) (s : Slave)
    → KeepsState e.al.post_state_change
    → (answer as_ an e s).1.al.status % 16 ≡ an % 16
unfolding answer post_hook al_status esc_write
answer_state as_ an e s keeps =
    let v = (run_hook e.al.post_state_change s.io.log as_ an).1 in
    let t = (clear_error v e s).1 in
    let asked = check_id_request t.al.control v e t in
    if-elim
      (λ (m : M ℕ).
        (if (m e asked.1).0 == id_request then set_bit v id_request else v) % 16 ≡ an % 16)
      asked.0 (λ _. low v (load_device_id e asked.1).0 (ap (λ h. h.1) (keeps s.io.log as_ an)))
      (λ _. low v 0 (ap (λ h. h.1) (keeps s.io.log as_ an)))
  where
    low :
        (v id : ℕ) → v ≡ an → (if id == id_request then set_bit v id_request else v) % 16 ≡ an % 16
    low v id h = ground arith

-- The state moved from `from` to that of `t`.
abbrev MovesTo : Bool → ℕ → Slave → Type 0
MovesTo dc from t = has_edge dc from (t.al.status % 16) ≡ true

handle-MovesTo :
    (ac an status : ℕ) (e : Env) (s : Slave)
    → KeepsState e.al.pre_state_change
    → KeepsState e.al.post_state_change
    → status % 16 ≡ an % 16
    → s.al.status % 16 ≡ status % 16
    → MovesTo (ltb 0 s.sync.dcsync) (status % 16) (handle ac an status e s).1
unfolding handle pre_hook
handle-MovesTo ac an status e s pre post from shown =
    if-elim (λ (m : M (Unit {0})). MovesTo (ltb 0 s.sync.dcsync) (status % 16) (m e s).1)
      (has_error an && not (has_error ac)) (λ _. stays)
      (λ _.
        if-elim (λ (m : M (Unit {0})). MovesTo (ltb 0 s.sync.dcsync) (status % 16) (m e s).1)
          (s.sync.op_pending && (transition ac status == 0x84)) (λ _. stays)
          (λ _.
            if-elim
              (λ (m : M (Unit {0})). MovesTo (ltb 0 s.sync.dcsync) (status % 16) (run (m e s).1))
              s.sync.op_pending
              (λ _. run-MovesTo (set_sync (λ y. record y { op_pending = false }) s) refl)
              (λ _. run-MovesTo s refl)))
  where
    stays : MovesTo (ltb 0 s.sync.dcsync) (status % 16) s
    stays = ground arith

    hooked : Slave → ℕ × ℕ
    hooked t = run_hook e.al.pre_state_change t.io.log (transition ac status) an

    run : Slave → Slave
    run t = let r = change (hooked t).0 ac (hooked t).1 e t in (answer (hooked t).0 r.0 e r.1).1

    low : transition ac status % 16 ≡ status % 16
    low = omega arith

    high : transition ac status / 16 ≡ ac % 16
    high = omega arith

    run-MovesTo :
        (t : Slave)
        → t.sync.dcsync ≡ s.sync.dcsync
        → MovesTo (ltb 0 s.sync.dcsync) (status % 16) (run t)
    run-MovesTo t clocks =
        let h = pre t.io.log (transition ac status) an in
        let r = change (hooked t).0 ac (hooked t).1 e t in
        let moved =
          change-IsMove (hooked t).0 ac (hooked t).1 e t
            (ap (λ v. v.0 % 16) h ∙ low ∙ from ∙ sym (ap (λ v. v.1 % 16) h))
            (ap (λ v. v.0 / 16) h ∙ high) in
        ap (λ n. has_edge (ltb 0 s.sync.dcsync) (status % 16) n)
          (answer_state (hooked t).0 r.0 e r.1 post)
        ∙ ap (λ n. has_edge (ltb 0 s.sync.dcsync) n (r.0 % 16)) (sym (ap (λ v. v.0 % 16) h ∙ low))
        ∙ ap (λ d. has_edge (ltb 0 d) ((hooked t).0 % 16) (r.0 % 16)) (sym clocks)
        ∙ moved

-- With state change hooks that keep the transition, a call of ESC_state moves AL status along an edge of
-- the graph of states, whatever the master requests and the controller answers. With distributed clocks
-- the graph has no edge to OP from another state.
pub esc_state_moves :
    (e : Env) (s : Slave)
    → KeepsState e.al.pre_state_change
    → KeepsState e.al.post_state_change
    → has_edge (ltb 0 s.sync.dcsync) (s.al.status % 16) ((esc_state e s).1.al.status % 16) ≡ true
unfolding esc_state read_control esc_read
esc_state_moves e s pre post =
    if-elim (λ (m : M (Unit {0})). MovesTo (ltb 0 s.sync.dcsync) (s.al.status % 16) (m e s).1)
      (not (has_bit s.io.al_event Event.control)) (λ _. ground arith)
      (λ _.
        let t = (read_control e s).1 in
        let ac = t.al.control % 32 in
        let moved =
          handle-MovesTo (masked ac ac) (masked ac (t.al.status % 32)) (t.al.status % 32) e t pre
            post (masked_low ac t.al.status) (omega arith) in
        ap
          (λ n. has_edge (ltb 0 s.sync.dcsync) n (
            (handle (masked ac ac) (masked ac (t.al.status % 32)) (t.al.status % 32) e
              t).1.al.status
            % 16))
          (low s.al.status)
        ∙ moved)
  where
    masked_low : (ac v : ℕ) → v % 32 % 16 ≡ masked ac (v % 32) % 16
    masked_low ac v = ground arith

    low : (v : ℕ) → v % 16 ≡ v % 32 % 16
    low v = omega arith

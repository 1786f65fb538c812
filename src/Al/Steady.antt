-- ===== src/Al/Steady.antt =====
-- The operations of soes/esc.c that leave alone the AL status, the state of the application and whether a
-- request for OP waits.
use soes.Base.{ℕ, ◌≡◌, refl, ap, false, List, Option, none, some, ◌||◌, ltb, if-elim, has_bit}
use soes.Codes.AlErr
use soes.Slave.{Access, Env, Slave, M, esc_read, esc_write, call_hook, set_mbx, set_al}
use soes.Bus.{sm_status, sm_write_pdi, read_sm, al_error, read_address, sm_enable, sm_disable}
use soes.Bus.Frame.{OnlySm, sm_enable-OnlySm, sm_disable-OnlySm}
use soes.Mailbox.{stopmbx}
use soes.Al.Managers.{
  check_mbx, fail_mbx, run_mbx, enable_mbx, startmbx, startmbxboot, check_sm23, fail_sm23, check_dc,
  clear_dc, call_check_dc, run_check_dc, sync_activation, mbx_differs, bad_sm2, bad_sm3, has_error,
}
use soes.Al.Outputs.{startoutput, sm_error, app_safe_state}

pub record Steady (s t : Slave) : Type 0 where
  pub status : t.al.status ≡ s.al.status
  pub app : t.al.app_state ≡ s.al.app_state
  pub pending : t.sync.op_pending ≡ s.sync.op_pending

pub Steady-refl : (s : Slave) → Steady s s
Steady-refl s = record { status = refl; app = refl; pending = refl }

pub Steady-trans : {s t u : Slave} → Steady s t → Steady t u → Steady s u
Steady-trans a b = record {
  status = cc (a.status, b.status);
  app = cc (a.app, b.app);
  pending = cc (a.pending, b.pending);
}

OnlySm-Steady : {n : ℕ} {s t : Slave} → OnlySm n s t → Steady s t
OnlySm-Steady h = record {
  status = ap (λ a. a.status) h.al;
  app = ap (λ a. a.app_state) h.al;
  pending = ap (λ y. y.op_pending) h.sync;
}

pub sm_enable-Steady : (n : ℕ) (e : Env) (s : Slave) → Steady s (sm_enable n e s).1
sm_enable-Steady n e s = OnlySm-Steady (sm_enable-OnlySm n e s)

pub sm_disable-Steady : (n : ℕ) (e : Env) (s : Slave) → Steady s (sm_disable n e s).1
sm_disable-Steady n e s = OnlySm-Steady (sm_disable-OnlySm n e s)

pub al_error-Steady : (number : ℕ) (e : Env) (s : Slave) → Steady s (al_error number e s).1
unfolding al_error esc_write
al_error-Steady number e s = record { status = refl; app = refl; pending = refl }

pub read_sm-Steady : (n : ℕ) (e : Env) (s : Slave) → Steady s (read_sm n e s).1
unfolding read_sm esc_read
read_sm-Steady n e s = record { status = refl; app = refl; pending = refl }

pub sm_status-Steady : (n : ℕ) (e : Env) (s : Slave) → Steady s (sm_status n e s).1
unfolding sm_status esc_read
sm_status-Steady n e s = record { status = refl; app = refl; pending = refl }

pub read_address-Steady : (e : Env) (s : Slave) → Steady s (read_address e s).1
unfolding read_address esc_read
read_address-Steady e s = record { status = refl; app = refl; pending = refl }

pub sm_error-Steady : (e : Env) (s : Slave) → Steady s (sm_error e s).1
unfolding sm_error
sm_error-Steady e s = al_error-Steady _ e s

pub app_safe_state-Steady : (e : Env) (s : Slave) → Steady s (app_safe_state e s).1
unfolding app_safe_state call_hook
app_safe_state-Steady e s =
    if-elim (λ (m : M (Unit {0})). Steady s (m e s).1) e.al.has_safe_state
      (λ _. record { status = refl; app = refl; pending = refl }) (λ _. Steady-refl s)

pub stopmbx-Steady : (e : Env) (s : Slave) → Steady s (stopmbx e s).1
unfolding stopmbx
stopmbx-Steady e s =
    let h =
      Steady-trans (sm_disable-Steady 0 e (set_mbx (λ b. record b { run = false }) s))
        (sm_disable-Steady 1 e _) in
    record { status = h.status; app = h.app; pending = h.pending }

fail_mbx-Steady : (n : ℕ) (e : Env) (s : Slave) → Steady s (fail_mbx n e s).1
unfolding fail_mbx
fail_mbx-Steady n e s =
    let h =
      Steady-trans (sm_disable-Steady 0 e (set_al (λ a. record a { sm_test_result = n }) s))
        (sm_disable-Steady 1 e _) in
    record { status = h.status; app = h.app; pending = h.pending }

pub check_mbx-Steady : (state : ℕ) (e : Env) (s : Slave) → Steady s (check_mbx state e s).1
unfolding check_mbx
check_mbx-Steady state e s =
    let after = (read_sm 1 e (read_sm 0 e s).1).1 in
    let read = Steady-trans (read_sm-Steady 0 e s) (read_sm-Steady 1 e (read_sm 0 e s).1) in
    if-elim (λ (m : M ℕ). Steady s (m e after).1) (mbx_differs after.mbx.mb0 (after.sm 0))
      (λ _. Steady-trans read (fail_mbx-Steady 1 e after))
      (λ _.
        if-elim (λ (m : M ℕ). Steady s (m e after).1) (mbx_differs after.mbx.mb1 (after.sm 1))
          (λ _. Steady-trans read (fail_mbx-Steady 2 e after)) (λ _. read))

run_mbx-Steady : (e : Env) (s : Slave) → Steady s (run_mbx e s).1
unfolding run_mbx sm_write_pdi esc_write
run_mbx-Steady e s = record { status = refl; app = refl; pending = refl }

enable_mbx-Steady :
    (state error : ℕ) (e : Env) (s : Slave) → Steady s (enable_mbx state error e s).1
unfolding enable_mbx
enable_mbx-Steady state error e s =
    let before = (sm_status 1 e (sm_status 0 e (sm_enable 1 e (sm_enable 0 e s).1).1).1).1 in
    let r = check_mbx state e before in
    let enabled = Steady-trans (sm_enable-Steady 0 e s) (sm_enable-Steady 1 e _) in
    let shown = Steady-trans (sm_status-Steady 0 e _) (sm_status-Steady 1 e _) in
    let checked = Steady-trans (Steady-trans enabled shown) (check_mbx-Steady state e before) in
    if-elim (λ (m : M (Unit {0})). Steady s (m e r.1).1) (has_error r.0)
      (λ _.
        let h = Steady-trans checked (al_error-Steady error e r.1) in
        record { status = h.status; app = h.app; pending = h.pending })
      (λ _. Steady-trans checked (run_mbx-Steady e r.1))

pub startmbx-Steady : (state : ℕ) (e : Env) (s : Slave) → Steady s (startmbx state e s).1
unfolding startmbx
startmbx-Steady state e s =
    let h = enable_mbx-Steady state AlErr.invalid_mbx_config e _ in
    record { status = h.status; app = h.app; pending = h.pending }

pub startmbxboot-Steady : (state : ℕ) (e : Env) (s : Slave) → Steady s (startmbxboot state e s).1
unfolding startmbxboot
startmbxboot-Steady state e s =
    let h = enable_mbx-Steady state AlErr.invalid_boot_mbx_config e _ in
    record { status = h.status; app = h.app; pending = h.pending }

fail_sm23-Steady : (n : ℕ) (e : Env) (s : Slave) → Steady s (fail_sm23 n e s).1
unfolding fail_sm23
fail_sm23-Steady n e s = record { status = refl; app = refl; pending = refl }

pub check_sm23-Steady : (state : ℕ) (e : Env) (s : Slave) → Steady s (check_sm23 state e s).1
unfolding check_sm23
check_sm23-Steady state e s =
    let one = (read_sm 2 e s).1 in
    let two = (read_sm 3 e one).1 in
    if-elim (λ (m : M ℕ). Steady s (m e one).1) (bad_sm2 e.al one)
      (λ _. Steady-trans (read_sm-Steady 2 e s) (fail_sm23-Steady 4 e one))
      (λ _.
        let read = Steady-trans (read_sm-Steady 2 e s) (read_sm-Steady 3 e one) in
        if-elim (λ (m : M ℕ). Steady s (m e two).1) (bad_sm3 e.al two)
          (λ _. Steady-trans read (fail_sm23-Steady 8 e two)) (λ _. read))

run_check_dc-app :
    (handler : Option (List Access → ℕ → ℕ → ℕ × ℕ × ℕ)) (e : Env) (s : Slave)
    → (run_check_dc handler e s).1.al.app_state ≡ s.al.app_state
unfolding run_check_dc
run_check_dc-app none e s = refl
run_check_dc-app (some handler) e s = refl

pub check_dc-app : (e : Env) (s : Slave) → (check_dc e s).1.al.app_state ≡ s.al.app_state
unfolding check_dc sync_activation call_check_dc clear_dc esc_read
check_dc-app e s =
    let act = sync_activation e s in
    if-elim (λ (m : M ℕ). (m e act.1).1.al.app_state ≡ s.al.app_state)
      (has_bit act.0 1 || has_bit act.0 8) (λ _. run_check_dc-app e.al.check_dc e act.1) (λ _. refl)

pub startoutput-pending :
    (state : ℕ) (e : Env) (s : Slave)
    → (startoutput state e s).1.sync.op_pending ≡ s.sync.op_pending
unfolding startoutput
startoutput-pending state e s =
    if-elim (λ (m : M (Unit {0})). (m e s).1.sync.op_pending ≡ s.sync.op_pending)
      (ltb 0 s.al.sm2_sml) (λ _. (sm_enable-Steady 2 e s).pending) (λ _. refl)

-- ===== src/Watchdog/Trips.antt =====
-- When hw_watchdog_check (soes/ecat_slv.c) takes the slave to SAFEOP.
use soes.Base.{
  ℕ, zero, suc, ◌+◌, ◌%◌, ◌≤◌, ◌<◌, ◌≡◌, refl, sym, ◌∙◌, ap, ◌⊎◌, inl, inr, Bool, true, false, not,
  ◌&&◌, ◌||◌, arith, ◌==◌, ltb, if-elim, has_bit,
}
use soes.Base.Memory.{load8, load16}
use soes.Codes.AlErr
use soes.Codes.Event
use soes.Slave.{Env, Slave, M, esc_read, esc_write}
use soes.Bus.{al_error, al_status}
use soes.Al.{al_status_goto_error, safeop_error, pre_hook, post_hook}
use soes.Watchdog.{
  WdState, unchecked, waiting, running, disabled, Watchdog, is_unchecked, is_disabled, is_running,
  wd_status, wd_status_register, read_armed, latch, expire, watch, hw_watchdog_check, quiet_cycles,
}

-- The slave has gone to SAFEOP with the watchdog error.
pub record Expired (w : Watchdog) (s t : Slave) : Type 0 where
  pub enforced : w.state ≡ running
  pub silent : has_bit s.io.al_event Event.sm2 ≡ false
  pub long : quiet_cycles ≤ w.quiet
  pub status : t.al.status ≡ safeop_error
  pub code : t.al.error ≡ AlErr.watchdog

goto_watchdog :
    (e : Env) (s : Slave)
    → let t = (al_status_goto_error safeop_error AlErr.watchdog e s).1 in
      (t.al.status ≡ safeop_error) × (t.al.error ≡ AlErr.watchdog)
unfolding al_status_goto_error pre_hook post_hook al_error al_status esc_write
goto_watchdog e s = (refl, refl)

latch-running :
    (state : WdState) (e : Env) (s : Slave)
    → (latch state e s).0 ≡ running
    → (state ≡ running) × ((latch state e s).1 ≡ s)
unfolding latch read_armed esc_read
latch-running unchecked e s h = ground arith
latch-running waiting e s h = ground arith
latch-running running e s h = (refl, refl)
latch-running disabled e s h = ground arith

latch_al : (state : WdState) (e : Env) (s : Slave) → (latch state e s).1.al ≡ s.al
unfolding latch read_armed esc_read
latch_al state e s =
    if-elim (λ (m : M WdState). (m e s).1.al ≡ s.al) (is_unchecked state) (λ _. refl) (λ _. refl)

running-eq : (state : WdState) → is_running state ≡ true → state ≡ running
running-eq state h = ground arith

expire-Expired :
    (state : WdState) (e : Env) (s : Slave)
    → ((expire state e s).1.al ≡ s.al)
      ⊎ ((state ≡ running)
          × ((expire state e s).1.al.status ≡ safeop_error)
          × ((expire state e s).1.al.error ≡ AlErr.watchdog))
unfolding expire wd_status esc_read
expire-Expired state e s =
    let r = wd_status e s in
    if-elim
      (λ (m : M (Unit {0})).
        ((m e r.1).1.al ≡ s.al)
        ⊎ ((state ≡ running)
            × ((m e r.1).1.al.status ≡ safeop_error)
            × ((m e r.1).1.al.error ≡ AlErr.watchdog)))
      (not (has_bit r.0 1) && is_running state)
      (λ p.
        let (status, code) = goto_watchdog e r.1 in
        inr (running-eq state (ground arith), status, code))
      (λ _. inl refl)

-- Each call of hw_watchdog_check leaves the AL state alone, or takes the slave to SAFEOP with the watchdog
-- error; the latter only with a watchdog that was running before the call, without an event of process
-- data, and with a count of quiet calls of at least 16.
pub hw_watchdog_check_lem :
    (w : Watchdog) (e : Env) (s : Slave)
    → ((hw_watchdog_check w e s).1.al ≡ s.al) ⊎ Expired w s (hw_watchdog_check w e s).1
unfolding hw_watchdog_check watch
hw_watchdog_check_lem w e s =
    let st = latch w.state e s in
    let same = latch_al w.state e s in
    if-elim Ends1 (not (has_bit s.al.app_state 2) || (s.al.sm2_sml == 0)) (λ _. inl refl)
      (λ _.
        if-elim Ends2 (is_disabled st.0) (λ _. inl same)
          (λ _.
            if-elim Ends2 (has_bit st.1.io.al_event Event.sm2) (λ _. inl same)
              (λ silent.
                if-elim Ends2 (ltb w.quiet quiet_cycles) (λ _. inl same)
                  (λ long. elim (expire-Expired st.0 e st.1) [
                    | inl kept ↦ inl (kept ∙ same)
                    | inr x ↦
                        let (ran, there) = latch-running w.state e s x.0 in
                        inr (record {
                          enforced = ran;
                          silent = ap (λ t. has_bit t.io.al_event Event.sm2) (sym there) ∙ silent;
                          long = ground arith;
                          status = x.1;
                          code = x.2;
                        })
                  ]))))
  where
    Ends1 : M (Bool × Watchdog) → Type 0
    Ends1 m = ((m e s).1.al ≡ s.al) ⊎ Expired w s (m e s).1

    Ends2 : M (Bool × Watchdog) → Type 0
    Ends2 m = ((m e (latch w.state e s).1).1.al ≡ s.al) ⊎ Expired w s (m e (latch w.state e s).1).1

-- Calls of the check, one for each cycle.
abbrev pub checks : ℕ → Watchdog → Env → Slave → Slave
checks zero w e s = s
checks (suc n) w e s = let r = hw_watchdog_check w e s in checks n r.0.1 e r.1

-- A running watchdog that has been quiet for `q` calls.
abbrev pub quiet_for : ℕ → Watchdog
quiet_for q = record { state = running; quiet = q }

check_counts :
    (q : ℕ) (e : Env) (s : Slave)
    → (not (has_bit s.al.app_state 2) || (s.al.sm2_sml == 0)) ≡ false
    → has_bit s.io.al_event Event.sm2 ≡ false
    → q < quiet_cycles
    → hw_watchdog_check (quiet_for q) e s ≡ ((true, quiet_for (q + 1)), s)
unfolding hw_watchdog_check watch latch
check_counts q e s on silent few = ground arith

check_expires :
    (e : Env) (s : Slave)
    → (not (has_bit s.al.app_state 2) || (s.al.sm2_sml == 0)) ≡ false
    → has_bit s.io.al_event Event.sm2 ≡ false
    → e.byte s.io.log wd_status_register % 2 ≡ 0
    → (hw_watchdog_check (quiet_for 16) e s).1.al.status ≡ safeop_error
unfolding hw_watchdog_check watch latch expire wd_status esc_read load16 load8
check_expires e s on silent low =
    if-elim (λ (m : M (Bool × Watchdog)). (m e s).1.al.status ≡ safeop_error)
      (not (has_bit s.al.app_state 2) || (s.al.sm2_sml == 0)) (λ p. absurd (ground arith))
      (λ _.
        if-elim (λ (m : M (Bool × Watchdog)). (m e s).1.al.status ≡ safeop_error)
          (has_bit s.io.al_event Event.sm2) (λ p. absurd (ground arith))
          (λ _.
            let r = wd_status e s in
            if-elim (λ (m : M (Unit {0})). (m e r.1).1.al.status ≡ safeop_error)
              (not (has_bit r.0 1) && is_running running) (λ _. (goto_watchdog e r.1).0)
              (λ p. absurd (ground arith))))

-- With outputs on, no event of process data and a status register that reads expired, a running watchdog
-- that has been quiet for `q` calls takes the slave to SAFEOP in 17 - `q` calls.
pub checks_expire :
    (k q : ℕ) (e : Env) (s : Slave)
    → q + k ≡ quiet_cycles
    → (not (has_bit s.al.app_state 2) || (s.al.sm2_sml == 0)) ≡ false
    → has_bit s.io.al_event Event.sm2 ≡ false
    → e.byte s.io.log wd_status_register % 2 ≡ 0
    → (checks (suc k) (quiet_for q) e s).al.status ≡ safeop_error
checks_expire zero q e s h on silent low =
    ap (λ n. (hw_watchdog_check (quiet_for n) e s).1.al.status) (omega arith)
    ∙ check_expires e s on silent low
checks_expire (suc k) q e s h on silent low =
    ap (λ r. (checks (suc k) r.0.1 e r.1).al.status) (check_counts q e s on silent (omega arith))
    ∙ checks_expire k (q + 1) e s (omega arith) on silent low

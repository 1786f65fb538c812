-- ===== src/Al/Outputs.antt =====
-- soes/esc.c: the start and stop of inputs and outputs, and the fall to an error state.
-- ESC_startinput, ESC_stopinput, ESC_startoutput, ESC_stopoutput, ESC_ALstatusgotoerror;
-- APP_safe_state of soes/ecat_slv.c.
use soes.Base.{
  ℕ, ◌+◌, ◌*◌, ◌%◌, false, not, ◌&&◌, Option, none, some, ◌==◌, ltb, if◌then◌else◌, u8, has_bit,
  set_bit, List,
}
use soes.Codes.{esc_op}
use soes.Codes.AlErr
use soes.Codes.Event
use soes.Slave.{
  Access, enable_irq, disable_irq, safe_state, Slave, M, ◌>>=◌, ◌>>◌, pure, skip, when, gets, asks,
  modify, call_hook, set_al, set_sync,
}
use soes.Bus.{al_error, al_status, sm_enable, sm_disable}
use soes.Al.Managers.{check_dc, check_sm23, preop_error}

-- ESCvar.App.state is set, or a bit of it changed: APPSTATE_INPUT is 1, APPSTATE_OUTPUT is 2.
abbrev pub set_app : (ℕ → ℕ) → M (Unit {0})
set_app f = modify (set_al (λ a. record a { app_state = f a.app_state }))

unfoldable pub app_safe_state : M (Unit {0})
app_safe_state = do present ← asks (λ e. e.al.has_safe_state); when present (call_hook safe_state)

unfoldable pub stopoutput : M (Unit {0})
stopoutput = do set_app (λ a. a % 2); sm_disable 2; app_safe_state

unfoldable pub startoutput : ℕ → M ℕ
startoutput state = do
  sml ← gets (λ s. s.al.sm2_sml)
  when (ltb 0 sml) (sm_enable 2)
  set_app (λ a. set_bit a 2)
  pure state

unfoldable pub stopinput : M (Unit {0})
stopinput = do
  set_app (λ _. 0)
  sm_disable 3
  sm_disable 2
  present ← asks (λ e. e.al.use_interrupt && e.al.has_irq_disable)
  when present (call_hook (disable_irq (Event.dc_sync0 + Event.sm2 + Event.sm3)))

-- The error for the SyncManager that failed the last check.
unfoldable pub sm_error : M (Unit {0})
sm_error = do
  input ← gets (λ s. has_bit s.al.sm_test_result 8)
  al_error (if input then AlErr.invalid_input_sm else AlErr.invalid_output_sm)

-- The events that an interrupt is wanted for.
abbrev pub irq_mask : Slave → ℕ
irq_mask s =
    (if s.al.sm2_sml == 0 then Event.sm3 else Event.sm2)
    + (if ltb 0 s.sync.dcsync then Event.dc_sync0 else 0)

-- The part of ESC_startinput for a device that uses interrupts.
unfoldable pub check_sync : ℕ → M ℕ
check_sync state = do
  result ← check_dc
  if ltb 0 result
      then (do al_error result; sm_disable 2; sm_disable 3; set_app (λ _. 0); pure preop_error)
      else (do
        present ← asks (λ e. e.al.has_irq_enable)
        mask ← gets irq_mask
        when present (call_hook (enable_irq mask))
        pure state)

unfoldable pub start_inputs : ℕ → M (Unit {0})
start_inputs state =
    if not (state == preop_error)
    then (do sml ← gets (λ s. s.al.sm3_sml); when (ltb 0 sml) (sm_enable 3); set_app (λ _. 1))
    else (do sm_disable 2; sm_disable 3; sm_error)

unfoldable pub startinput : ℕ → M ℕ
startinput wanted = do
  state ← check_sm23 wanted
  start_inputs state
  use_interrupt ← asks (λ e. e.al.use_interrupt)
  if use_interrupt && not (state == preop_error) then check_sync state else pure state

-- A state change hook on (as, an): the values that it leaves.
abbrev pub run_hook : Option (List Access → ℕ → ℕ → ℕ × ℕ) → List Access → ℕ → ℕ → ℕ × ℕ
run_hook none log as_ an = (as_, an)
run_hook (some hook) log as_ an = hook log as_ an

unfoldable pub pre_hook : ℕ → ℕ → M (ℕ × ℕ)
pre_hook as_ an e s = (run_hook e.al.pre_state_change s.io.log as_ an, s)

unfoldable pub post_hook : ℕ → ℕ → M (ℕ × ℕ)
post_hook as_ an e s = (run_hook e.al.post_state_change s.io.log as_ an, s)

-- ESC_ALstatusgotoerror. What the hooks leave in their arguments is not used.
unfoldable pub al_status_goto_error : (status error : ℕ) → M (Unit {0})
al_status_goto_error status error = if has_bit status esc_op then skip else (do
  old ← gets (λ s. s.al.status % 16)
  changed ← pre_hook (u8 (status % 16 * 16 + old % 16)) old
  app ← gets (λ s. s.al.app_state)
  when (has_bit app 2) stopoutput
  modify (set_sync (λ y. record y { op_pending = false }))
  al_error error
  al_status status
  after ← post_hook changed.0 status
  skip)

-- ===== src/Watchdog.antt =====
-- soes/ecat_slv.c: hw_watchdog_check, the check of the controller's process data watchdog; with
-- ESC_WDstatus of soes/esc.c.
pub mod Trips
use soes.Base.{
  ℕ, ◌+◌, ◌/◌, ◌%◌, Bool, true, false, not, ◌&&◌, ◌||◌, ◌==◌, ltb, if◌then◌else◌, has_bit, u8,
}
use soes.Base.Memory.{load16}
use soes.Codes.AlErr
use soes.Codes.Event
use soes.Slave.{M, ◌>>=◌, ◌>>◌, pure, skip, when, gets, esc_read}
use soes.Al.{al_status_goto_error, safeop_error}

-- ESCREG_WDDIVIDER, ESCREG_WDTIMEPDATA and ESCREG_WDSTATUS
abbrev pub wd_divider : ℕ
wd_divider = 0x400

abbrev pub wd_time_pdata : ℕ
wd_time_pdata = 0x420

abbrev pub wd_status_register : ℕ
wd_status_register = 0x440

-- HW_WD_QUIET_CYCLES
abbrev pub quiet_cycles : ℕ
quiet_cycles = 16

-- `hw_wd_state` and `hw_wd_quiet`.
pub data WdState : Type 0 where
  unchecked waiting running disabled : WdState

pub record Watchdog : Type 0 where
  pub state : WdState
  pub quiet : ℕ

abbrev pub is_unchecked : WdState → Bool
is_unchecked unchecked = true
is_unchecked _ = false

abbrev pub is_disabled : WdState → Bool
is_disabled disabled = true
is_disabled _ = false

abbrev pub is_running : WdState → Bool
is_running running = true
is_running _ = false

abbrev pub fed : WdState → WdState
fed waiting = running
fed state = state

unfoldable pub wd_status : M ℕ
wd_status = do b ← esc_read wd_status_register 2; pure (u8 (load16 b 0))

-- Whether the master armed the watchdog.
unfoldable pub read_armed : M WdState
read_armed = do
  d ← esc_read wd_divider 2
  t ← esc_read wd_time_pdata 2
  pure (if (load16 t 0 == 0) || (load16 d 0 == 0) then disabled else waiting)

unfoldable pub latch : WdState → M WdState
latch state = if is_unchecked state then read_armed else pure state

unfoldable pub expire : WdState → M (Unit {0})
expire state = do
  status ← wd_status
  when (not (has_bit status 1) && is_running state)
      (al_status_goto_error safeop_error AlErr.watchdog)

-- The check of an armed watchdog. The flag is whether the hardware watchdog is in charge.
unfoldable pub watch : WdState → (quiet : ℕ) → M (Bool × Watchdog)
watch state quiet = do
  event ← gets (λ s. s.io.al_event)
  if has_bit event Event.sm2
      then pure (true, record { state = fed state; quiet = 0 })
      else if ltb quiet quiet_cycles
      then pure (true, record { state = state; quiet = quiet + 1 })
      else (do expire state; pure (true, record { state = state; quiet = quiet }))

unfoldable pub hw_watchdog_check : Watchdog → M (Bool × Watchdog)
hw_watchdog_check w = do
  idle ← gets (λ s. not (has_bit s.al.app_state 2) || (s.al.sm2_sml == 0))
  if idle then pure (true, record { state = unchecked; quiet = 0 }) else (do
    state ← latch w.state
    if is_disabled state
        then pure (false, record { state = state; quiet = w.quiet })
        else watch state w.quiet)

-- ===== src/Al/Managers.antt =====
-- soes/esc.c: the checks of the SyncManagers, and the start of the mailboxes. ESC_SYNCactivation,
-- ESC_checkDC, ESC_checkmbx, ESC_startmbx, ESC_startmbxboot, ESC_checkSM23.
use soes.Base.{
  List, ℕ, ◌+◌, ◌*◌, Bool, true, false, not, ◌&&◌, ◌||◌, Option, none, some, ◌==◌, ltb,
  if◌then◌else◌, has_bit,
}
use soes.Base.Int.{pos}
use soes.Base.Memory.{load8}
use soes.Codes.{esc_init, esc_preop, esc_error}
use soes.Codes.Reg
use soes.Codes.AlErr
use soes.Slave.{
  Access, SmCfg, SyncManager, AlCfg, Slave, M, ◌>>=◌, ◌>>◌, pure, gets, asks, modify, esc_read,
  set_mbx, set_al, set_sm, set_sync,
}
use soes.Bus.{
  ec_sm, ec_rep, set_pdi_rep, al_error, sm_status, sm_write_pdi, sm_enable, sm_disable, read_sm,
}

abbrev pub init_error : ℕ
init_error = esc_init + esc_error

abbrev pub preop_error : ℕ
preop_error = esc_preop + esc_error

abbrev pub has_error : ℕ → Bool
has_error an = has_bit an esc_error

unfoldable pub sync_activation : M ℕ
sync_activation = do b ← esc_read Reg.sync_act 1; pure (load8 b 0)

-- The application's DC check, which sets what depends on distributed clocks, or the error that there
-- is none.
unfoldable pub run_check_dc : Option (List Access → ℕ → ℕ → ℕ × ℕ × ℕ) → M ℕ
run_check_dc none e s = (AlErr.dc_invalid_sync_cfg, s)
run_check_dc (some handler) e s =
    let (code, dcsync, limit) = handler s.io.log s.sync.dcsync s.sync.limit in
    (code, set_sync (λ y. record y { dcsync = dcsync; limit = limit }) s)

unfoldable pub call_check_dc : M ℕ
call_check_dc e s = run_check_dc e.al.check_dc e s

unfoldable pub clear_dc : M (Unit {0})
clear_dc = modify (
    set_sync (λ y. record y {
      dcsync = 0;
      op_pending = false;
      counter = pos 0;
      missed = 0;
      error = false;
      sm_event_seen = false;
    }))

unfoldable pub check_dc : M ℕ
check_dc = do
  act ← sync_activation
  if has_bit act 1 || has_bit act 8 then call_check_dc else (do clear_dc; pure 0)

-- Whether a mailbox SyncManager differs from its configuration or is not enabled.
abbrev pub mbx_differs : SmCfg → SyncManager → Bool
mbx_differs c r =
    not (r.psa == c.sma) || not (r.length == c.sml) || not (r.command == c.smc) || (ec_sm r == 0)

unfoldable pub fail_mbx : ℕ → M ℕ
fail_mbx result = do
  modify (set_al (λ a. record a { sm_test_result = result }))
  sm_disable 0
  sm_disable 1
  pure init_error

unfoldable pub check_mbx : ℕ → M ℕ
check_mbx state = do
  read_sm 0
  read_sm 1
  bad0 ← gets (λ s. mbx_differs s.mbx.mb0 (s.sm 0))
  bad1 ← gets (λ s. mbx_differs s.mbx.mb1 (s.sm 1))
  if bad0 then fail_mbx 1 else if bad1 then fail_mbx 2 else pure state

-- The common part of ESC_startmbx and ESC_startmbxboot after the settings are assigned.
unfoldable pub run_mbx : M (Unit {0})
run_mbx = do
  modify (λ s. set_mbx (λ b. record b { toggle = ec_rep (s.sm 1) }) s)
  modify (λ s. set_sm 1 (set_pdi_rep s.mbx.toggle) s)
  sm_write_pdi 1
  modify (set_mbx (λ b. record b { run = true }))

unfoldable pub enable_mbx : (state error : ℕ) → M ℕ
enable_mbx state error = do
  sm_enable 0
  sm_enable 1
  sm_status 0
  sm_status 1
  result ← check_mbx state
  if has_error result
      then (do al_error error; modify (set_mbx (λ b. record b { run = false })))
      else run_mbx
  pure result

unfoldable pub startmbx : ℕ → M ℕ
startmbx state = do
  cfg ← asks (λ e. e)
  modify (set_mbx (λ b. record b { size = cfg.mbx_size; mb0 = cfg.mb0; mb1 = cfg.mb1 }))
  enable_mbx state AlErr.invalid_mbx_config

unfoldable pub startmbxboot : ℕ → M ℕ
startmbxboot state = do
  cfg ← asks (λ e. e)
  modify
      (set_mbx (λ b. record b { size = cfg.mbx_size_boot; mb0 = cfg.mbboot0; mb1 = cfg.mbboot1 }))
  enable_mbx state AlErr.invalid_boot_mbx_config

-- The tests of ESC_checkSM23 on one SyncManager: address, control byte, length, and whether it is
-- activated as its data want. `act` is SM2_act or SM3_act.
abbrev pub pdo_differs : (sma smc act sml : ℕ) → SyncManager → Bool
pdo_differs sma smc act sml r =
    not (r.psa == sma)
    || not (r.command == smc)
    || not (r.length == sml)
    || (not (has_bit act 1) && (has_bit r.act_esc 1 || ltb 0 sml))
    || (has_bit act 1 && not (has_bit r.act_esc 1) && ltb 0 sml)

unfoldable pub fail_sm23 : ℕ → M ℕ
fail_sm23 result = do modify (set_al (λ a. record a { sm_test_result = result })); pure preop_error

-- The tests on SM2, with the one that three buffers of SM2 end before SM3; and those on SM3.
abbrev pub bad_sm2 : AlCfg → Slave → Bool
bad_sm2 c s =
    pdo_differs c.sm2_sma c.sm2_smc c.sm2_act s.al.sm2_sml (s.sm 2)
    || ltb c.sm3_sma (c.sm2_sma + (s.sm 2).length * 3)

abbrev pub bad_sm3 : AlCfg → Slave → Bool
bad_sm3 c s = pdo_differs c.sm3_sma c.sm3_smc c.sm3_act s.al.sm3_sml (s.sm 3)

unfoldable pub check_sm23 : ℕ → M ℕ
check_sm23 state = do
  c ← asks (λ e. e.al)
  read_sm 2
  bad2 ← gets (bad_sm2 c)
  if bad2
      then fail_sm23 4
      else (do read_sm 3; bad3 ← gets (bad_sm3 c); if bad3 then fail_sm23 8 else pure state)

-- ===== src/Tests/WatchdogTests.antt =====
-- The watchdog of a slave whose master has stopped.
use soes.Base.{◌≡◌, refl, ◌⊎◌}
use soes.Slave.{Env}
use soes.Al.{safeop_error}
use soes.Watchdog.{hw_watchdog_check}
use soes.Watchdog.Trips.{Expired, hw_watchdog_check_lem, checks, quiet_for, checks_expire}
use soes.Tests.Setup.{linked, no_bytes, slave_at}

-- Every register reads 0, so the watchdog has expired.
abbrev env : Env
env = linked no_bytes

hw_watchdog_check_lem_example :
    ((hw_watchdog_check (quiet_for 16) env (slave_at 8 3 0)).1.al ≡ (slave_at 8 3 0).al)
    ⊎ Expired
        (quiet_for 16)
        (slave_at 8 3 0)
        (hw_watchdog_check (quiet_for 16) env (slave_at 8 3 0)).1
hw_watchdog_check_lem_example = hw_watchdog_check_lem (quiet_for 16) env (slave_at 8 3 0)

checks_expire_example : (checks 17 (quiet_for 0) env (slave_at 8 3 0)).al.status ≡ safeop_error
checks_expire_example = checks_expire 16 0 env (slave_at 8 3 0) refl refl refl refl

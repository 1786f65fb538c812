-- ===== src/Tests/SyncTests.antt =====
-- The sync error counter on concrete slaves.
use soes.Base.{ℕ, refl, false, arith, ◌⊎◌}
use soes.Base.Int.{pos}
use soes.Slave.{Env, Slave}
use soes.Sync.{sync0_account}
use soes.Sync.Counter.{Within, Tripped, sync0_account_lem}
use soes.Sync.Wrap.{accounts, missed_periods, Tolerated, burst-Tolerated, Untripped, never_trips}
use soes.Tests.Setup.{linked, no_bytes, no_sync, slave_at}

abbrev env : Env
env = linked no_bytes

-- In OP, with a limit and a counter.
abbrev counting : (limit counter : ℕ) → Slave
counting limit counter = record (slave_at 8 3 0) {
  sync = record no_sync { dcsync = 1; limit = limit; counter = pos counter };
}

sync0_account_lem_example :
    Within false 10 (counting 12 10) (sync0_account false env (counting 12 10)).1
    ⊎ Tripped false 10 (counting 12 10) (sync0_account false env (counting 12 10)).1
sync0_account_lem_example =
    sync0_account_lem false 10 env (counting 12 10) (omega arith) (omega arith) (omega arith) refl

burst-Tolerated_example :
    Tolerated 4 12 (counting 12 0) (accounts env (counting 12 0) (missed_periods 4))
burst-Tolerated_example =
    burst-Tolerated 4 0 env (counting 12 0) (omega arith) (omega arith) (omega arith) refl

never_trips_example :
    Untripped (counting 40000 32767) (accounts env (counting 40000 32767) (missed_periods 5))
never_trips_example =
    never_trips (missed_periods 5) env (counting 40000 32767) (omega arith) (omega arith)

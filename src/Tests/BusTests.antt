-- ===== src/Tests/BusTests.antt =====
-- The read-back loops against a controller that answers on the third read.
use soes.Base.{ℕ, ◌-◌, ◌%◌, ◌≡◌, refl, length, leb, if◌then◌else◌, arith}
use soes.Slave.{Env}
use soes.Bus.{sm_enable, sm_disable}
use soes.Bus.Settle.{sm_enable_settles, sm_disable_settles}
use soes.Tests.Setup.{linked, no_bytes, slave_at}

-- The bit changes to `v` when the log holds three accesses.
abbrev late : ℕ → Env
late v = record (linked no_bytes) { byte = λ log a. if leb 3 (length log) then v else 1 - v }

sm_enable_settles_example : ((sm_enable 2 (late 0) (slave_at 4 0 0)).1.sm 2).act_pdi % 2 ≡ 0
sm_enable_settles_example = sm_enable_settles 2 2 (late 0) (slave_at 4 0 0) (omega arith) refl

sm_disable_settles_example : ((sm_disable 3 (late 1) (slave_at 4 0 0)).1.sm 3).act_pdi % 2 ≡ 1
sm_disable_settles_example = sm_disable_settles 3 2 (late 1) (slave_at 4 0 0) (omega arith) refl

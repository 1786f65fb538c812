-- ===== src/Bus/Settle.antt =====
-- The read-back loops of ESC_SMenable and ESC_SMdisable (soes/esc.c).
use soes.Base.{ℕ, zero, suc, ◌+◌, ◌*◌, ◌%◌, ◌≤◌, ◌≡◌, List, [], ◌∷◌, arith, u16, clear_bit, set_bit}
use soes.Base.Memory.{load8}
use soes.Codes.Reg
use soes.Slave.{Env, Slave, Access, rd, wr, esc_read, esc_write}
use soes.Bus.Regs.{wait_pdi, sm_read_pdi, sm_write_pdi, sm_enable, sm_disable}

-- The log after `k` more reads of the PDI control register of SyncManager `n`.
abbrev pub polled : ℕ → ℕ → List Access → List Access
polled n zero log = log
polled n (suc k) log = polled n k (rd (u16 (Reg.sm0_pdi + n * 8)) 1 ∷ log)

-- Bit 0 of that register, as the controller shows it on the read after `k` others.
abbrev pub shown : Env → ℕ → ℕ → List Access → ℕ
shown e n k log = e.byte (polled n k log) (u16 (Reg.sm0_pdi + n * 8)) % 2

wait_pdi-settles :
    (k fuel n wanted : ℕ) (e : Env) (s : Slave)
    → k ≤ fuel
    → shown e n k s.io.log ≡ wanted
    → ((wait_pdi fuel n wanted e s).1.sm n).act_pdi % 2 ≡ wanted
unfolding wait_pdi sm_read_pdi esc_read load8
wait_pdi-settles zero zero n wanted e s h r = ground arith
wait_pdi-settles zero (suc fuel) n wanted e s h r = ground arith
wait_pdi-settles (suc k) zero n wanted e s h r = absurd (omega arith)
wait_pdi-settles (suc k) (suc fuel) n wanted e s h r =
    ground (arith, wait_pdi-settles k fuel n wanted e (sm_read_pdi n e s).1)

-- The log right after the write that ESC_SMenable or ESC_SMdisable makes.
abbrev pub asked : ℕ → ℕ → List Access → List Access
asked n v log = wr (u16 (Reg.sm0_pdi + n * 8)) (v ∷ []) ∷ log

-- If the controller shows bit 0 of the PDI control register clear on one of the first `patience` + 1
-- reads after the write, ESC_SMenable ends with that bit of the shadow clear.
pub sm_enable_settles :
    (n k : ℕ) (e : Env) (s : Slave)
    → k ≤ e.patience
    → shown e n k (asked n (clear_bit (s.sm n).act_pdi 1) s.io.log) ≡ 0
    → ((sm_enable n e s).1.sm n).act_pdi % 2 ≡ 0
unfolding sm_enable sm_write_pdi esc_write
sm_enable_settles n k e s h r = wait_pdi-settles k e.patience n 0 e _ h (ground arith)

-- If the controller shows bit 0 of the PDI control register set on one of the first `patience` + 1
-- reads after the write, ESC_SMdisable ends with that bit of the shadow set.
pub sm_disable_settles :
    (n k : ℕ) (e : Env) (s : Slave)
    → k ≤ e.patience
    → shown e n k (asked n (set_bit (s.sm n).act_pdi 1) s.io.log) ≡ 1
    → ((sm_disable n e s).1.sm n).act_pdi % 2 ≡ 1
unfolding sm_disable sm_write_pdi esc_write
sm_disable_settles n k e s h r = wait_pdi-settles k e.patience n 1 e _ h (ground arith)

-- ===== src/Codes/FoeOp.antt =====
-- File over EtherCAT operation codes of soes/esc.h (FOE_OP_...).
use soes.Base.{ℕ}

abbrev pub rrq : ℕ
rrq = 1

abbrev pub wrq : ℕ
wrq = 2

abbrev pub dat : ℕ
dat = 3

abbrev pub ack : ℕ
ack = 4

abbrev pub err : ℕ
err = 5

abbrev pub busy : ℕ
busy = 6

-- ===== src/Codes/Event.antt =====
-- Weights of the bits of the AL event register of soes/esc.h (ESCREG_ALEVENT_...).
use soes.Base.{ℕ}

abbrev pub control : ℕ
control = 0x1

abbrev pub dc_sync0 : ℕ
dc_sync0 = 0x4

abbrev pub sm_change : ℕ
sm_change = 0x10

abbrev pub sm0 : ℕ
sm0 = 0x100

abbrev pub sm1 : ℕ
sm1 = 0x200

abbrev pub sm2 : ℕ
sm2 = 0x400

abbrev pub sm3 : ℕ
sm3 = 0x800

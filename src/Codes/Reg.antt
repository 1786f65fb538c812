-- ===== src/Codes/Reg.antt =====
-- Register addresses of soes/esc.h (ESCREG_...).
use soes.Base.{ℕ}

abbrev pub address : ℕ
address = 0x10

abbrev pub conf_station_alias : ℕ
conf_station_alias = 0x12

abbrev pub al_control : ℕ
al_control = 0x120

abbrev pub al_status : ℕ
al_status = 0x130

abbrev pub al_error : ℕ
al_error = 0x134

abbrev pub sm0 : ℕ
sm0 = 0x800

abbrev pub sm0_status : ℕ
sm0_status = 0x805

abbrev pub sm0_activate : ℕ
sm0_activate = 0x806

abbrev pub sm0_pdi : ℕ
sm0_pdi = 0x807

abbrev pub sm1 : ℕ
sm1 = 0x808

abbrev pub sm2 : ℕ
sm2 = 0x810

abbrev pub sm3 : ℕ
sm3 = 0x818

abbrev pub sync_act : ℕ
sync_act = 0x981

-- ===== src/Codes/FoeErr.antt =====
-- File over EtherCAT error codes of soes/esc.h (FOE_ERR_...).
use soes.Base.{ℕ}

abbrev pub not_defined : ℕ
not_defined = 0x8000

abbrev pub not_found : ℕ
not_found = 0x8001

abbrev pub disk_full : ℕ
disk_full = 0x8003

abbrev pub illegal : ℕ
illegal = 0x8004

abbrev pub packet_no : ℕ
packet_no = 0x8005

abbrev pub not_in_bootstrap : ℕ
not_in_bootstrap = 0x8009

abbrev pub no_rights : ℕ
no_rights = 0x800A

abbrev pub prog_error : ℕ
prog_error = 0x800B

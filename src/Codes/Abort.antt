-- ===== src/Codes/Abort.antt =====
-- SDO abort codes of soes/esc.h (ABORT_...).
use soes.Base.{ℕ}

abbrev pub unsupported : ℕ
unsupported = 0x06010000

abbrev pub write_only : ℕ
write_only = 0x06010001

abbrev pub read_only : ℕ
read_only = 0x06010002

abbrev pub subindex0_not_zero : ℕ
subindex0_not_zero = 0x06010003

abbrev pub ca_not_supported : ℕ
ca_not_supported = 0x06010004

abbrev pub no_object : ℕ
no_object = 0x06020000

abbrev pub type_mismatch : ℕ
type_mismatch = 0x06070010

abbrev pub no_subindex : ℕ
no_subindex = 0x06090011

abbrev pub general_error : ℕ
general_error = 0x08000000

abbrev pub not_in_this_state : ℕ
not_in_this_state = 0x08000022

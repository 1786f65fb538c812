-- ===== src/Codes/AlErr.antt =====
-- AL status codes of soes/esc.h (ALERR_...).
use soes.Base.{ℕ}

abbrev pub none : ℕ
none = 0

abbrev pub invalid_state_change : ℕ
invalid_state_change = 0x11

abbrev pub unknown_state : ℕ
unknown_state = 0x12

abbrev pub invalid_boot_mbx_config : ℕ
invalid_boot_mbx_config = 0x15

abbrev pub invalid_mbx_config : ℕ
invalid_mbx_config = 0x16

abbrev pub sync_error : ℕ
sync_error = 0x1A

abbrev pub watchdog : ℕ
watchdog = 0x1B

abbrev pub invalid_output_sm : ℕ
invalid_output_sm = 0x1D

abbrev pub invalid_input_sm : ℕ
invalid_input_sm = 0x1E

abbrev pub fatal_sync_error : ℕ
fatal_sync_error = 0x2C

abbrev pub no_sync_error : ℕ
no_sync_error = 0x2D

abbrev pub dc_invalid_sync_cfg : ℕ
dc_invalid_sync_cfg = 0x30

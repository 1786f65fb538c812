-- ===== src/Codes.antt =====
-- The option, state, register and error codes of soes/esc.h that the modules use.
pub mod Reg
pub mod Event
pub mod MbxErr
pub mod MbxType
pub mod FoeErr
pub mod FoeOp
pub mod AlErr
pub mod Abort
pub mod Coe
use soes.Base.{ℕ}

abbrev pub esc_init : ℕ
esc_init = 1

abbrev pub esc_preop : ℕ
esc_preop = 2

abbrev pub esc_boot : ℕ
esc_boot = 3

abbrev pub esc_safeop : ℕ
esc_safeop = 4

abbrev pub esc_op : ℕ
esc_op = 8

-- The error bit, ESCerror.
abbrev pub esc_error : ℕ
esc_error = 16

-- sizeof (_MBXh), ESC_MBXHSIZE.
abbrev pub mbx_header_size : ℕ
mbx_header_size = 6

-- sizeof (_FOEh), ESC_FOEHSIZE.
abbrev pub foe_header_size : ℕ
foe_header_size = 6

-- FOE_FN_MAX.
abbrev pub foe_fn_max : ℕ
foe_fn_max = 31

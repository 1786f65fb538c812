-- ===== src/Codes/MbxErr.antt =====
-- Mailbox error codes of soes/esc.h (MBXERR_...).
use soes.Base.{ℕ}

abbrev pub unsupported_protocol : ℕ
unsupported_protocol = 2

abbrev pub invalid_header : ℕ
invalid_header = 5

abbrev pub size_too_short : ℕ
size_too_short = 6

abbrev pub invalid_size : ℕ
invalid_size = 8

abbrev pub service_in_work : ℕ
service_in_work = 9

-- ===== src/Codes/MbxType.antt =====
-- Mailbox protocol numbers of soes/esc.h (MBX...).
use soes.Base.{ℕ}

abbrev pub err : ℕ
err = 0

abbrev pub eoe : ℕ
eoe = 2

abbrev pub canopen : ℕ
canopen = 3

abbrev pub foe : ℕ
foe = 4

abbrev pub odl : ℕ
odl = 0x10

abbrev pub seu : ℕ
seu = 0x40

abbrev pub sed : ℕ
sed = 0x50

-- ===== src/Coe/Stuck.antt =====
-- An SDO request that no branch of ESC_coeprocess (soes/esc_coe.c) takes, such as the master's abort.
use soes.Base.{ℕ, ◌≡◌, true, false}
use soes.Base.Memory.{load8}
use soes.Codes.MbxType
use soes.Codes.Coe
use soes.Slave.{Env, Slave}
use soes.Mailbox.{is_inclaim, mbxprocess, xoeprocess}
use soes.Coe.{coeprocess, service_in}
use soes.Foe.{foeprocess}

-- The command byte of an SDO abort.
abbrev pub abort_command : ℕ
abort_command = 0x80

-- The inbox holds an abort from the master, CoE has taken it, and no reply is held back.
pub record IsBlocked (s : Slave) : Type 0 where
  pub xoe : s.mbx.xoe ≡ MbxType.canopen
  pub inbox : is_inclaim (s.control 0) ≡ true
  pub service : service_in s ≡ Coe.sdo_request
  pub command : load8 s.mem 8 ≡ abort_command
  pub held : s.sdo_held.active ≡ false

-- Calls of the mailbox protocol and of the protocols in it, in any order, with what the controller
-- answers to each, and other changes that leave the inbox, its message, ESCvar.xoe and the
-- held-back reply alone.
pub data Calls : Slave → Slave → Type 0 where
  done : (s : Slave) → Calls s s
  by_mbx : (e : Env) (s t : Slave) → Calls (mbxprocess e s).1 t → Calls s t
  by_coe : (e : Env) (s t : Slave) → Calls (coeprocess e s).1 t → Calls s t
  by_foe : (e : Env) (s t : Slave) → Calls (foeprocess e s).1 t → Calls s t
  by_xoe : (e : Env) (s t : Slave) → Calls (xoeprocess e s).1 t → Calls s t
  other :
      (s s' t : Slave)
      → s'.mem ≡ s.mem
      → s'.sdo_held ≡ s.sdo_held
      → s'.mbx.xoe ≡ s.mbx.xoe
      → s'.control 0 ≡ s.control 0
      → Calls s' t
      → Calls s t

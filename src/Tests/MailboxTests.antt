-- ===== src/Tests/MailboxTests.antt =====
-- The mailbox layer on a concrete slave.
use soes.Base.{◌≤◌, ◌≡◌, refl, false, ◌==◌, if◌then◌else◌, arith}
use soes.Base.Memory.{Mem, load8}
use soes.Slave.{Env, Slave, idle, esc_read, outpost, outreq, update}
use soes.Bus.{sm_status}
use soes.Base.Order.{scan_down}
use soes.Mailbox.Lost.{Lost, Runs, done, call, other, mbx_step-Lost}
use soes.Mailbox.{
  outreqbuffer, mbx_step, claimbuffer, claimed, find_idle, mbxprocess, refresh_status, xoeprocess,
}
use soes.Mailbox.Valid.{idle-IsValid}
use soes.Mailbox.Claim.{IsValidAt, claimbuffer_available}
use soes.Mailbox.Keeps.{NoRace, mbxprocess-IsValid, xoeprocess-IsValid}
use soes.Tests.Setup.{linked, no_bytes, slave_at, running}

abbrev env : Env
env = linked no_bytes

-- Event SM0: the master has written the inbox.
abbrev fresh : Slave
fresh = slave_at 2 0 256

fresh-IsValid : IsValidAt env fresh
fresh-IsValid =
    idle-IsValid 4 fresh.control fresh.mbx (omega arith) (omega arith) (λ k h. refl) refl refl refl

-- The controller reports a full inbox, with a message of 10 bytes.
abbrev full_inbox : Mem
full_inbox a = if a == 0x805 then 8 else if a == 0x1000 then 10 else 0

no_race : NoRace (refresh_status (linked full_inbox) fresh).1
unfolding refresh_status sm_status esc_read load8
no_race = λ posted. absurd (posted refl)

mbxprocess-IsValid_example : IsValidAt (linked full_inbox) (mbxprocess (linked full_inbox) fresh).1
mbxprocess-IsValid_example = mbxprocess-IsValid (linked full_inbox) fresh fresh-IsValid no_race

xoeprocess-IsValid_example : IsValidAt env (xoeprocess env fresh).1
xoeprocess-IsValid_example = xoeprocess-IsValid env fresh fresh-IsValid

claimbuffer_available_example :
    (1 ≤ find_idle env fresh)
    × (find_idle env fresh ≤ 3)
    × (fresh.control (find_idle env fresh) ≡ idle)
    × (claimbuffer env fresh ≡ (find_idle env fresh, claimed (find_idle env fresh) fresh))
claimbuffer_available_example = claimbuffer_available env fresh 1 (omega arith) (omega arith) refl

-- Buffer 1 is posted and has been read, buffer 2 is queued, and no event is reported.
abbrev read_early : Slave
read_early = record (slave_at 2 0 0) {
  control = update (update (λ k. idle) 1 outpost) 2 outreq;
  mbx = record running { posted = 1; txcue = 1; free = false };
}

next_queued : (outreqbuffer env read_early).0 ≡ 2
unfolding outreqbuffer scan_down
next_queued = refl

-- Two more calls, with a message that the stack queues between them.
abbrev one_later : Slave
one_later = (mbxprocess env (mbx_step env read_early).1).1

abbrev queued_more : Slave
queued_more = record one_later { mbx = record (one_later.mbx) { txcue = 1 } }

later_calls : Runs 1 env (mbx_step env read_early).1 (mbxprocess env queued_more).1
later_calls =
    call (mbx_step env read_early).1 _
      (other one_later queued_more _ refl refl refl (call queued_more _ (done _)))

mbx_step-Lost_example : Lost 1 (mbxprocess env queued_more).1
mbx_step-Lost_example =
    mbx_step-Lost env read_early (mbxprocess env queued_more).1 1 2 refl (omega arith) refl
      (omega arith) refl refl refl (omega arith) next_queued (omega arith) refl later_calls

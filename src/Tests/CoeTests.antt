-- ===== src/Tests/CoeTests.antt =====
-- The SDO services on a concrete slave and dictionary.
use soes.Base.{
  ℕ, ◌*◌, ◌-◌, ◌≤◌, ◌<◌, ◌≡◌, refl, true, inr, List, [], ◌∷◌, ◌++◌, ◌==◌, if◌then◌else◌, arith,
}
use soes.Base.Memory.{Mem, load8, load16, load_low, bytes}
use soes.Base.Order.{scan_down}
use soes.Slave.{Entry, Object, Env, Slave, idle, inclaim, outreq, update}
use soes.Pdo.{findobject, findobject_from, findsubindex, seek_subindex}
use soes.Mailbox.{find_idle, mbxprocess}
use soes.Mailbox.Claim.{IsValidAt}
use soes.Mailbox.Valid.{idle-IsValid, inbox-IsValid}
use soes.Coe.{
  coeprocess, request_in, locate, locate_sub, read_access, sdo_upload, sdo_complete, upload_post,
  call_hook, sdo_uploadsegment,
}
use soes.Coe.Answering.{Waits, NamesNoEnd, IsAnswered, coeprocess_answers}
use soes.Coe.Serving.{coeprocess-IsValid}
use soes.Coe.Content.{Says, size_at}
use soes.Coe.Payload.{segment_data}
use soes.Coe.Holding.{sdo_complete_lem}
use soes.Coe.Segments.{Accepts}
use soes.Coe.Sending.{reply_base, chunk, Last-step}
use soes.Coe.Delivery.{Between, Transfer, finish, kept_Sending}
use soes.Coe.Opening.{Long, first_data, upload-Opens, upload_delivers}
use soes.Tests.Setup.{linked, no_bytes, slave_at, running}

abbrev pub env : Env
env = linked no_bytes

-- A name of 200 bytes that may be read in PREOP, and its object.
abbrev pub name_entry : Entry
name_entry = record {
  subindex = 0;
  datatype = 9;
  bitlength = 1600;
  flags = 1;
  name = 110 ∷ [];
  value = 0;
  dataptr = 0x100;
}

abbrev pub name_object : Object
name_object = record {
  index = 0x2000;
  objtype = 7;
  maxsub = 0;
  name = 110 ∷ [];
  entries = name_entry ∷ [];
}

-- An SDO request with `command`, for the object 0x2000.
abbrev pub request : (command : ℕ) → Mem
request command i =
    if i == 0
    then 10
    else if i == 5
    then 3
    else if i == 7
    then 0x20
    else if i == 8
    then command
    else if i == 10
    then 0x20
    else 0

-- A slave in PREOP with that request in the inbox.
abbrev pub asked : ℕ → Slave
asked command = record (slave_at 2 0 0) {
  mem = request command;
  control = update (λ k. idle) 0 inclaim;
  objects = name_object ∷ [];
  ram = λ a. a;
}

asked-IsValid : (command : ℕ) → IsValidAt env (asked command)
asked-IsValid command =
    inbox-IsValid 4 (λ k. idle) running running
      (idle-IsValid 4 (λ k. idle) running (omega arith) (omega arith) (λ k h. refl) refl refl refl)
      inclaim (inr refl) refl refl refl refl

asked-Waits : (command : ℕ) → Waits (asked command)
unfolding load_low load8 load16
asked-Waits command = record {
  run = refl;
  xoe = refl;
  inbox = refl;
  kind = refl;
  long = omega arith;
}

coeprocess-IsValid_example : IsValidAt env (coeprocess env (asked 0x40)).1
coeprocess-IsValid_example = coeprocess-IsValid env (asked 0x40) (asked-IsValid 0x40)

is_upload : IsAnswered (asked 0x40)
unfolding request_in load8 load16
is_upload = inr (inr tt)

available : (command : ℕ) → 0 < find_idle env (asked command)
unfolding find_idle scan_down
available command = omega arith

asked-NamesNoEnd : NamesNoEnd (asked 0x40)
unfolding load8 load16
asked-NamesNoEnd = record {
  requested = λ _ q. omega (arith, q);
  described = λ q _. omega (arith, q);
  transferred = λ q. omega (arith, q);
}

coeprocess_answers_example :
    let t = (coeprocess env (asked 0x40)).1 in
    IsValidAt env t × (t.control (find_idle env (asked 0x40)) ≡ outreq)
coeprocess_answers_example =
    coeprocess_answers env (asked 0x40) (asked-IsValid 0x40) (asked-Waits 0x40) asked-NamesNoEnd
      is_upload (available 0x40)

-- The abort is taken, and the mailboxes and CoE are called again.
abbrev abort_taken : Slave
abort_taken = (coeprocess env (asked 0x80)).1

abbrev abort_later : Slave
abort_later = (coeprocess env (mbxprocess env abort_taken).1).1

-- A download of 0x2000 is held back.
abbrev holding : Slave
holding = record (asked 0) { sdo_held = record { active = true; index = 0x2000; subindex = 1 } }

available_holding : 0 < find_idle env holding
unfolding find_idle scan_down
available_holding = omega arith

sdo_complete_lem_example :
    let t = (sdo_complete 0 env holding).1 in
    (t.control (find_idle env holding) ≡ outreq)
    × Says t.mem (find_idle env holding * 128) 3 0x60 0x2000 1 0
    × (t.ram ≡ holding.ram)
    × ((later : ℕ) → (sdo_complete later env t).1 ≡ t)
sdo_complete_lem_example =
    sdo_complete_lem env holding 0 refl available_holding (omega arith) (omega arith) (omega arith)

-- The name is longer than one message.
abbrev uploading : Slave
uploading = asked 0x40

is_Long : Long env uploading name_entry name_object 0
unfolding locate locate_sub findobject findobject_from findsubindex seek_subindex read_access load8
    load16
is_Long = record {
  located = refl;
  entry = refl;
  readable = refl;
  no_hook_before = refl;
  long = omega arith;
  in_range = omega arith;
  room = omega arith;
  small = omega arith;
}

pub accepts : Accepts env
unfolding upload_post call_hook
accepts index subindex flags s = refl

-- After the first message the buffers are idle again.
abbrev after_first : Slave
after_first = record (sdo_upload env uploading).1 { control = λ k. idle }

first-Between : Between env (sdo_upload env uploading).1 after_first
unfolding find_idle scan_down
first-Between = record {
  same_left = refl;
  same_frags = refl;
  same_data = refl;
  same_kind = refl;
  same_size = refl;
  same_bytes = λ _ _. refl;
  idle_again = omega arith;
}

abbrev rest : List ℕ
rest = segment_data (sdo_uploadsegment env after_first).1.mem (reply_base env after_first)

one_segment : Transfer env after_first 0 rest
one_segment =
    let p = upload-Opens env uploading name_entry name_object 0 is_Long (available 0x40) in
    let w = kept_Sending env _ after_first (p.2) first-Between in
    finish after_first
      (Last-step env after_first w accepts first-Between.idle_again
        (omega (arith, p.4, p.5, p.7))).1

upload_delivers_example :
    let t = (sdo_upload env uploading).1 in
    (size_at t.mem (reply_base env uploading) ≡ 200)
    × (first_data t.mem (reply_base env uploading) ++ rest ≡ bytes uploading.ram 0x100 200)
    × (0 * chunk uploading < 200 - 112)
    × (200 - 112 ≤ 1 * chunk uploading)
upload_delivers_example =
    upload_delivers env uploading name_entry name_object 0 after_first 0 rest is_Long accepts
      (available 0x40) first-Between one_segment

-- ===== src/Tests/SdoTests.antt =====
-- A download and an upload on a concrete slave and dictionary.
use soes.Base.{ℕ, ◌<◌, ◌≡◌, refl, [], ◌∷◌, ◌==◌, if◌then◌else◌, arith}
use soes.Base.Memory.{Mem, load8, load16, load32, bytes}
use soes.Base.Order.{scan_down}
use soes.Slave.{Entry, Object, Slave, idle, inclaim, update}
use soes.Pdo.{findobject, findobject_from, findsubindex, seek_subindex}
use soes.Mailbox.{find_idle}
use soes.Coe.{
  locate, locate_sub, read_access, write_access, sdo_upload, sdo_download, stated_size, is_longer,
  is_mapping_object,
}
use soes.Coe.Sending.{reply_base}
use soes.Coe.Storing.{Plain, Writes}
use soes.Coe.Reading.{Reads, reply_data, download_upload}
use soes.Tests.Setup.{slave_at}
use soes.Tests.CoeTests.{env, accepts}

-- A 16-bit value that may be read and written in every state, and its object.
abbrev word : Entry
word = record {
  subindex = 0;
  datatype = 6;
  bitlength = 16;
  flags = 63;
  name = 119 ∷ [];
  value = 0;
  dataptr = 0x100;
}

abbrev word_object : Object
word_object = record {
  index = 0x2001;
  objtype = 7;
  maxsub = 0;
  name = 119 ∷ [];
  entries = word ∷ [];
}

-- An SDO request with `command`, for the object 0x2001, and the value 0x1234.
abbrev request : (command : ℕ) → Mem
request command i =
    if i == 0
    then 10
    else if i == 5
    then 3
    else if i == 7
    then 0x20
    else if i == 8
    then command
    else if i == 9
    then 1
    else if i == 10
    then 0x20
    else if i == 12
    then 0x34
    else if i == 13
    then 0x12
    else 0

abbrev asked : (command : ℕ) → Mem → Slave
asked command ram = record (slave_at 2 0 0) {
  mem = request command;
  control = update (λ k. idle) 0 inclaim;
  objects = word_object ∷ [];
  ram = ram;
}

abbrev writing : Slave
writing = asked 0x2B (λ a. 0)

abbrev reading : Slave
reading = asked 0x40 (sdo_download env writing).1.ram

plain : Plain env
plain = record { no_pre = refl; no_post = refl }

writes : Writes env writing word word_object 0
unfolding locate locate_sub findobject findobject_from findsubindex seek_subindex write_access
    stated_size is_longer is_mapping_object load8 load16 load32
writes = record {
  located = refl;
  entry = refl;
  writable = refl;
  fits = refl;
  carried = refl;
  ordinary = refl;
}

reads : Reads env reading word word_object 0
unfolding locate locate_sub findobject findobject_from findsubindex seek_subindex read_access load8
    load16
reads = record {
  located = refl;
  entry = refl;
  readable = refl;
  no_hook_before = refl;
  has_data = omega arith;
  some_bits = omega arith;
  in_range = omega arith;
  carried = omega arith;
  small = omega arith;
}

available : 0 < find_idle env reading
unfolding find_idle scan_down
available = omega arith

download_upload_example :
    reply_data (sdo_upload env reading).1.mem (reply_base env reading)
    ≡ bytes writing.mem 12 (stated_size writing)
unfolding load8
download_upload_example =
    download_upload env writing reading word word_object 0 plain writes refl reads accepts available

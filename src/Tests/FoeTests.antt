-- ===== src/Tests/FoeTests.antt =====
-- File over EtherCAT on a concrete slave.
use soes.Base.{◌∷◌, ℕ, ◌<◌, ◌≡◌, ◌⊎◌, refl, some, List, [], ◌==◌, if◌then◌else◌, arith, inr}
use soes.Base.Memory.{Mem, load8, load16, load32, load_low, bytes}
use soes.Slave.{Env, Slave, Foe, FoeCfg, idle, inclaim, wait_for_data, update, set_foe}
use soes.Mailbox.Valid.{idle-IsValid, inbox-IsValid}
use soes.Mailbox.Claim.{IsValidAt}
use soes.Foe.{
  wrq, fopen, fwrite, fclose, foeprocess, foe_data, write_data, put_byte, flush_full, flush,
  fwrite_loop, open_request, init, find_file, same_prefix, select, foe_write,
}
use soes.Foe.Stream.{Written, start, Receiving, fwrite-Receiving, fclose-Written}
use soes.Foe.Receiver.{Receiver, Holds, idle_holds, Next, HasMessage, payload, CfgIsValid}
use soes.Foe.Session.{foeprocess-Next}
use soes.Foe.Completion.{Delivered, foe_data-Delivered}
use soes.Foe.Inbox.{foeprocess-IsValid, foeprocess_releases}
use soes.Foe.Opening.{fopen_empty_name}
use soes.Foe.Progress.{Accepts, GoesOn, fwrite_counts, foe_data-GoesOn}
use soes.Foe.Starting.{foe_write-GoesOn}
use soes.Foe.Faults.{fwrite_never_flushes}
use soes.Tests.Setup.{linked, no_bytes, no_foe, slave_at, running, files, image}

abbrev env : Env
env = linked no_bytes

files-IsValid : CfgIsValid files
files-IsValid = record {
  some_buffer = omega arith;
  buffer_fits = omega arith;
  files_fit = (omega arith, tt);
}

-- A write request for the file "a": length 7, type FoE, opcode 2, password 0, the name.
abbrev write_request : Mem
write_request a =
    if a == 0 then 7 else if a == 5 then 4 else if a == 6 then 2 else if a == 12 then 97 else 0

abbrev asked_to_write : Slave
asked_to_write = record (slave_at 2 0 0) {
  mem = write_request;
  control = update (λ k. idle) 0 inclaim;
}

foeprocess-Next_example :
    ((¬ HasMessage asked_to_write)
      × Holds files (foeprocess env asked_to_write).1.foe Receiver.idle)
    ⊎ (HasMessage asked_to_write
        × ((r' : Receiver) × Next env asked_to_write Receiver.idle r'
            × Holds files (foeprocess env asked_to_write).1.foe r'))
foeprocess-Next_example =
    foeprocess-Next env asked_to_write Receiver.idle files-IsValid refl (idle_holds refl refl)

foeprocess_releases_example :
    ((foeprocess env asked_to_write).1.control 0 ≡ idle)
    × ((foeprocess env asked_to_write).1.mbx.xoe ≡ 0)
unfolding load_low
foeprocess_releases_example = foeprocess_releases env asked_to_write refl refl refl refl

asked_to_write-IsValid : IsValidAt env asked_to_write
asked_to_write-IsValid =
    inbox-IsValid 4 (λ k. idle) running running
      (idle-IsValid 4 (λ k. idle) running (omega arith) (omega arith) (λ k h. refl) refl refl refl)
      inclaim (inr refl) refl refl refl refl

foeprocess-IsValid_example : IsValidAt env (foeprocess env asked_to_write).1
foeprocess-IsValid_example = foeprocess-IsValid env asked_to_write asked_to_write-IsValid

-- A data packet, number 1: length 9, type FoE, opcode 3, and the bytes 10, 20 and 30.
abbrev data_packet : Mem
data_packet a =
    if a == 0
    then 9
    else if a == 5
    then 4
    else if a == 6
    then 3
    else if a == 8
    then 1
    else if a == 12
    then 10
    else if a == 13
    then 20
    else if a == 14
    then 30
    else 0

-- The file 0 has just been opened.
abbrev opened_file : Foe
opened_file = record no_foe { state = wait_for_data; packet = 1; fend = 1000; file = some 0 }

abbrev at_data : Slave
at_data = record (slave_at 2 0 0) {
  mem = data_packet;
  control = update (λ k. idle) 0 inclaim;
  foe = opened_file;
}

opened_file-Receiving : Receiving files [] 0 [] [] opened_file
unfolding bytes
opened_file-Receiving = record {
  chosen = refl;
  buffer_small = omega arith;
  room = omega arith;
  end_small = omega arith;
  position = omega arith;
  split = refl;
  written = start;
  received = refl;
}

three_taken : (write_data 3 env at_data).0 ≡ 3
unfolding write_data fwrite fwrite_loop put_byte flush_full flush load8
three_taken = refl

foe_data-Delivered_example : Delivered [] 0 (payload at_data) (foe_data env at_data).1.foe
unfolding load16 load32 load8
foe_data-Delivered_example =
    foe_data-Delivered env at_data [] 0 [] [] refl opened_file-Receiving refl (omega arith)
      (omega arith) three_taken refl

fwrite-Receiving_example :
    ((fwrite files data_packet 12 3 opened_file).0 ≡ 3)
      × ((zs : List ℕ) × Receiving files [] 0
            (bytes data_packet 12 3)
            zs
            (fwrite files data_packet 12 3 opened_file).1)
    ⊎ ((fwrite files data_packet 12 3 opened_file).0 < 3)
fwrite-Receiving_example =
    fwrite-Receiving files [] 0 data_packet 12 3 [] [] opened_file (omega arith)
      opened_file-Receiving

fclose-Written_example :
    Written [] 0 (fclose files opened_file).1.flushes 0 []
    × ((fclose files opened_file).1.fbufposition ≡ 0)
    × ((fclose files opened_file).1.address_offset 0 ≡ 0)
fclose-Written_example = fclose-Written files [] 0 [] [] opened_file opened_file-Receiving

fopen_empty_name_example :
    ((fopen files write_request 12 0 0 2 wrq no_foe).0 ≡ 0)
    × ((fopen files write_request 12 0 0 2 wrq no_foe).1.file ≡ some 0)
fopen_empty_name_example = fopen_empty_name write_request 12 2 wrq files image [] no_foe refl refl

-- A buffer of 65536 bytes.
abbrev large : FoeCfg
large = record files { buffer_size = 65536 }

fwrite_never_flushes_example : (fwrite large data_packet 12 70000 opened_file).1.flushes ≡ []
fwrite_never_flushes_example =
    fwrite_never_flushes large data_packet 12 70000 opened_file (omega arith)

accepting : Accepts files
accepting [] = refl
accepting (c ∷ cs) = refl

fwrite_counts_example : (fwrite files data_packet 12 3 opened_file).0 ≡ 3
fwrite_counts_example =
    fwrite_counts files data_packet 12 3 opened_file accepting (omega arith) (omega arith)

-- A full packet of 116 bytes.
abbrev full_packet_bytes : Mem
full_packet_bytes a = if a == 0 then 122 else data_packet a

abbrev at_full : Slave
at_full = record at_data { mem = full_packet_bytes }

foe_data-GoesOn_example : GoesOn files [] 0 (payload at_full) 2 (foe_data env at_full).1.foe
unfolding load16 load32 load8
foe_data-GoesOn_example =
    foe_data-GoesOn env at_full [] 0 1 [] [] accepting refl opened_file-Receiving refl refl
      (omega arith) (omega arith) (omega arith) (omega arith) refl

request_accepted : (open_request wrq env (set_foe init asked_to_write)).0 ≡ 0
unfolding open_request fopen find_file same_prefix select init bytes load8 load16 load32
request_accepted = refl

foe_write-GoesOn_example :
    (file : ℕ) × GoesOn files [] file [] 1 (foe_write env asked_to_write).1.foe
foe_write-GoesOn_example =
    foe_write-GoesOn env asked_to_write 1 files-IsValid refl request_accepted (omega arith)
      (omega arith) refl

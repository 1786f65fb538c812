-- ===== src/Coe/Subindices.antt =====
-- soes/esc_coe.c: complete_access_subindex_loop. It runs without a buffer for the size, into
-- ESCvar.mbxdata for an upload, and from a buffer for a download.
use soes.Base.{
  ℕ, zero, suc, ◌+◌, ◌-◌, ◌*◌, ◌/◌, ◌%◌, Bool, not, ◌&&◌, ◌||◌, ◌==◌, ltb, leb, if◌then◌else◌, u32,
}
use Prim.Native.Nat.{◌^◌, bit_and, bit_or}
use soes.Base.Memory.{Mem, load8, store8}
use soes.Codes.Abort
use soes.Slave.{Entry, Object, blit}
use soes.Pdo.{entry_at}
use soes.Coe.Access.{bits_to_bytes, read_access, write_access}

-- DTYPE_VISIBLE_STRING, DTYPE_OCTET_STRING, DTYPE_UNICODE_STRING
abbrev pub visible_string : ℕ
visible_string = 9

abbrev pub octet_string : ℕ
octet_string = 10

abbrev pub unicode_string : ℕ
unicode_string = 11

-- OTYPE_VAR
abbrev pub otype_var : ℕ
otype_var = 7

abbrev pub is_string : ℕ → Bool
is_string datatype =
    (datatype == visible_string) || (datatype == octet_string) || (datatype == unicode_string)

-- The bytes that `ul_source` points to: the entry's data, or its constant.
unfoldable pub constant_byte : ℕ → Mem
constant_byte value j =
    if j == 0
    then value % 256
    else if j == 1
    then value / 256 % 256
    else if j == 2
    then value / 65536 % 256
    else if j == 3
    then value / 16777216 % 256
    else 0

unfoldable pub source_byte : Mem → Entry → Mem
source_byte ram o j = if o.dataptr == 0 then constant_byte o.value j else ram (o.dataptr + j)

-- "move on to next byte boundary": where an entry is put.
unfoldable pub place : (size bitlength : ℕ) → ℕ
place size bitlength =
    if (bitlength % 8 == 0) && not (size % 8 == 0) then u32 (size + (8 - size % 8)) else size

-- The offset in bits after entry `nsub`.
unfoldable pub advance : Object → (nsub size : ℕ) → ℕ
advance o nsub size =
    let bitlength = (entry_at o.entries nsub).bitlength in
    u32 (
      place size bitlength
      + (if (nsub == 0) && not (o.objtype == otype_var) then 16 else bitlength))

-- The loop without a buffer, with `rounds` subindices to go.
unfoldable pub total_size : Object → (rounds nsub size : ℕ) → ℕ
total_size o zero nsub size = size
total_size o (suc rounds) nsub size = total_size o rounds (nsub + 1) (advance o nsub size)

-- The number of rounds of `while (nsub <= maxsub)`.
abbrev pub rounds_from : Object → ℕ → ℕ
rounds_from o nsub = o.maxsub + 1 - nsub

-- What the loop returns without a buffer: a size in bits, or an abort code.
unfoldable pub complete_size : Object → ℕ → ℕ
complete_size o nsub =
    if is_string (entry_at o.entries 0).datatype
    then Abort.ca_not_supported
    else total_size o (rounds_from o nsub) nsub 0

-- One entry of an upload, at `size` bits into the buffer at `mbxdata`.
unfoldable pub upload_bits : (status mbxdata size : ℕ) → Entry → Mem → Mem
upload_bits status mbxdata size o ram =
    let bitmask = 2 ^ o.bitlength - 1 in
    let at = mbxdata + size / 8 in
    let mask = bitmask * 2 ^ (size % 8) in
    let cleared = if size % 8 == 0 then store8 ram at 0 else ram in
    let value = bit_and (load8 (source_byte ram o) 0) bitmask * 2 ^ (size % 8) % 256 in
    if read_access o.flags status
    then store8 cleared at (bit_or (load8 cleared at) value)
    else store8 ram at (bit_and (load8 ram at) (255 - mask % 256))

unfoldable pub upload_bytes : (status mbxdata size : ℕ) → Entry → Mem → Mem
upload_bytes status mbxdata size o ram =
    blit ram (mbxdata + bits_to_bytes size) (bits_to_bytes o.bitlength)
      (if read_access o.flags status then source_byte ram o else λ j. 0)

unfoldable pub upload_one : (status mbxdata size : ℕ) → Entry → Mem → Mem
upload_one status mbxdata size o ram =
    if o.bitlength % 8 == 0
    then upload_bytes status mbxdata (place size o.bitlength) o ram
    else upload_bits status mbxdata size o ram

unfoldable pub upload_loop : (status mbxdata : ℕ) → Object → (rounds nsub size : ℕ) → Mem → Mem
upload_loop status mbxdata o zero nsub size ram = ram
upload_loop status mbxdata o (suc rounds) nsub size ram =
    upload_loop status mbxdata o rounds (nsub + 1) (advance o nsub size)
      (upload_one status mbxdata size (entry_at o.entries nsub) ram)

-- The loop of an upload; the object's data are no strings then.
unfoldable pub upload_all : (status mbxdata : ℕ) → Object → ℕ → Mem → Mem
upload_all status mbxdata o nsub ram =
    upload_loop status mbxdata o (rounds_from o nsub) nsub 0 (store8 ram (mbxdata + 1) 0)

-- One entry of a download from the buffer `source`, which lies apart from the entries' data. Entries
-- that are not whole bytes are not written.
unfoldable pub download_one : (status size : ℕ) (source : Mem) → Entry → Mem → Mem
download_one status size source o ram =
    if (o.bitlength % 8 == 0) && write_access o.flags status
    then blit ram o.dataptr (bits_to_bytes o.bitlength)
        (λ j. source (bits_to_bytes (place size o.bitlength) + j))
    else ram

unfoldable pub download_loop :
    (status max_bytes : ℕ) (source : Mem) → Object → (rounds nsub size : ℕ) → Mem → Mem
download_loop status max_bytes source o zero nsub size ram = ram
download_loop status max_bytes source o (suc rounds) nsub size ram =
    let size' = advance o nsub size in
    let ram' = download_one status size source (entry_at o.entries nsub) ram in
    let rest = download_loop status max_bytes source o rounds (nsub + 1) size' ram' in
    if ltb 0 max_bytes && leb max_bytes (bits_to_bytes size') then ram' else rest

-- The loop of a download of `max_bytes` bytes, 0 for no limit.
unfoldable pub download_all : (status max_bytes : ℕ) (source : Mem) → Object → ℕ → Mem → Mem
download_all status max_bytes source o nsub ram =
    download_loop status max_bytes source o (rounds_from o nsub) nsub 0 ram

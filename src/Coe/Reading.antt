-- ===== src/Coe/Reading.antt =====
-- An upload that one message carries (SDO_upload of soes/esc_coe.c), as the master reads it; and a download
-- followed by an upload.
use soes.Base.{
  ℕ, ◌+◌, ◌-◌, ◌*◌, ◌/◌, ◌%◌, ◌≤◌, ◌<◌, ◌≡◌, ◌≢◌, ◌⊎◌, inl, inr, sym, ap, ◌∙◌, true, false, none,
  List, if◌then◌else◌, if-elim, arith, has_bit, u16,
}
use mathlib.Core.Path.{subst}
use soes.Base.Memory.{Mem, bytes, load8, load16, store8, store16, store32, store_low}
use soes.Mailbox.{claimed, find_idle}
use soes.Pdo.{entry_at}
use soes.Slave.{Entry, Object, Env, Slave, blit}
use soes.Coe.{
  sdo_header, init_coesdo, set_size, set_length, copy_out, start_segments, no_segments, fill_normal,
  fill_expedited, finish_upload, queue, release_inbox, upload_reply, sdo_upload, bits_to_bytes,
  needs_segments, read_access, locate, found, index_in, subindex_in, dss, complete_dss,
  sdo_download, stated_size, data_at,
}
use soes.Coe.Content.{size_at, command_at}
use soes.Coe.Payload.{bytes-blit, bytes_shift}
use soes.Coe.Segments.{Accepts, upload_post-mem}
use soes.Coe.Sending.{reply_base}
use soes.Coe.Opening.{upload_pre-none, reply_state, size_of, opened}
use soes.Coe.Storing.{Plain, Writes, stored, sdo_download-ram}

-- The data of a reply at offset `base`: expedited, with the size in the command, or behind the size.
abbrev pub reply_data : Mem → ℕ → List ℕ
reply_data m base =
    if has_bit (command_at m base) 2
    then bytes m (base + 12) (4 - command_at m base / 4 % 4)
    else bytes m (base + 16) (size_at m base)

finish-mem :
    (e : Env) (s : Slave) (n index subindex flags : ℕ)
    → Accepts e
    → (finish_upload n index subindex flags e s).1.mem ≡ s.mem
unfolding finish_upload queue release_inbox
finish-mem e s n index subindex flags a =
    ground (arith, a index subindex flags s, upload_post-mem index subindex flags e s)

compare_le : (a b : ℕ) → (a ≤ b) ⊎ (b < a)
compare_le a b = ground arith

short_state :
    (e : Env) (c : Slave) (index subindex : ℕ) (o : Entry) (n : ℕ)
    → e.sdo.pre_object_upload_hook ≡ none
    → bits_to_bytes o.bitlength ≤ 4
    → upload_reply index subindex o n e c
      ≡ finish_upload n index subindex o.flags e
          (fill_expedited n
            (bits_to_bytes o.bitlength)
            o
            e
            (init_coesdo n 3 (0x43 + dss o.bitlength) index subindex e c).1).1
unfolding upload_reply
short_state e c index subindex o n q l =
    let size = bits_to_bytes o.bitlength in
    let c1 = (init_coesdo n 3 (0x43 + dss o.bitlength) index subindex e c).1 in
    ground (arith, upload_pre-none e c1 index subindex o.dataptr size o.flags q)

-- The command byte of an expedited reply tells the size.
pub dss_size :
    (bits : ℕ)
    → 0 < bits
    → bits ≤ 32
    → let command = 0x43 + dss bits in
      (has_bit command 2 ≡ true)
      × (4 - command / 4 % 4 ≡ bits_to_bytes bits)
      × (command < 256)
      × (complete_dss bits ≡ dss bits)
unfolding dss complete_dss
dss_size bits p h = ground arith

module _ (m src : Mem) (base index subindex : ℕ) where
  abbrev expedited : (command n : ℕ) → Mem
  expedited command n = blit (sdo_header base 10 3 command index subindex m) (base + 12) n src

  expedited_command :
      (command n : ℕ) → command < 256 → command_at (expedited command n) base ≡ command
  unfolding sdo_header blit load8 store8 store16 store_low load16
  expedited_command command n h = ground arith

  expedited-data :
      (bits : ℕ)
      → 0 < bits
      → bits ≤ 32
      → reply_data (expedited (0x43 + dss bits) (bits_to_bytes bits)) base
        ≡ bytes src 0 (bits_to_bytes bits)
  expedited-data bits p h =
      let n = bits_to_bytes bits in
      let w = dss_size bits p h in
      let g = expedited (0x43 + dss bits) n in
      let c = expedited_command (0x43 + dss bits) n (w.2) in
      subst
        (λ k.
          (if has_bit k 2
            then bytes g (base + 12) (4 - k / 4 % 4)
            else bytes g (base + 16) (size_at g base))
          ≡ bytes src 0 n)
        (sym c)
        (if-elim (λ (xs : List ℕ). xs ≡ bytes src 0 n) (has_bit (0x43 + dss bits) 2)
          (λ _. ap (bytes g (base + 12)) (w.1) ∙ bytes-blit _ src (base + 12) n)
          (λ z. absurd (ground (arith, w.0))))

  abbrev normal : (n : ℕ) → Mem
  normal n =
      blit
        (store16 (store32 (sdo_header base 10 3 0x41 index subindex m) (base + 12) n) base
          (u16 (10 + n)))
        (base + 16) n src

  normal_command : (n : ℕ) → command_at (normal n) base ≡ 0x41
  unfolding sdo_header blit load8 store8 store16 store_low load16 store32
  normal_command n = ground arith

  normal_size : (n : ℕ) → n < 65536 → size_at (normal n) base ≡ n
  normal_size n h =
      size_of (sdo_header base 10 3 0x41 index subindex m) src base n n (u16 (10 + n)) (omega arith)

  normal-data : (n : ℕ) → n < 65536 → reply_data (normal n) base ≡ bytes src 0 n
  normal-data n h =
      let g = normal n in
      subst
        (λ k.
          (if has_bit k 2
            then bytes g (base + 12) (4 - k / 4 % 4)
            else bytes g (base + 16) (size_at g base))
          ≡ bytes src 0 n)
        (sym (normal_command n))
        (ap (bytes g (base + 16)) (normal_size n h) ∙ bytes-blit _ src (base + 16) n)

-- "normal response", in one message.
whole_state :
    (e : Env) (c : Slave) (n size : ℕ) (o : Entry)
    → needs_segments size c ≡ false
    → (fill_normal n size o e c).1.mem
      ≡ blit
          (store16 (store32 c.mem (n * c.mbx.size + 12) size) (n * c.mbx.size) (u16 (10 + size)))
          (n * c.mbx.size + 16)
          size
          (λ j. c.ram (o.dataptr + j))
unfolding fill_normal start_segments no_segments set_size set_length copy_out
whole_state e c n size o h = ground arith

expedited_state :
    (e : Env) (c : Slave) (n size : ℕ) (o : Entry)
    → o.dataptr ≢ 0
    → (fill_expedited n size o e c).1.mem
      ≡ blit c.mem (n * c.mbx.size + 12) size (λ j. c.ram (o.dataptr + j))
unfolding fill_expedited set_size copy_out
expedited_state e c n size o h = ground arith

-- An upload of a readable entry with data of its own, which one message carries, and no upload hook before.
pub record Reads (e : Env) (s : Slave) (x : Entry) (o : Object) (nsub : ℕ) : Type 0 where
  pub located : locate (index_in s) (subindex_in s) s.objects ≡ found o nsub
  pub entry : entry_at o.entries nsub ≡ x
  pub readable : read_access x.flags s.al.status ≡ true
  pub no_hook_before : e.sdo.pre_object_upload_hook ≡ none
  pub has_data : x.dataptr ≢ 0
  pub some_bits : 0 < x.bitlength
  pub in_range : x.bitlength < 4294967280
  pub carried : bits_to_bytes x.bitlength + 16 ≤ s.mbx.size
  pub small : s.mbx.size < 65536

abbrev Answers : Env → Slave → Entry → Slave → Type 0
Answers e s x t =
    reply_data t.mem (reply_base e s) ≡ bytes s.ram x.dataptr (bits_to_bytes x.bitlength)

reply-Answers :
    (e : Env) (s : Slave) (x : Entry) (o : Object) (nsub : ℕ)
    → Reads e s x o nsub
    → Accepts e
    → Answers e s x
        (upload_reply
          (index_in s)
          (subindex_in s)
          x
          (find_idle e s)
          e
          (claimed (find_idle e s) s)).1
unfolding claimed init_coesdo
reply-Answers e s x o nsub w a =
    let n = find_idle e s in
    let c = claimed n s in
    let i = index_in s in
    let k = subindex_in s in
    let size = bits_to_bytes x.bitlength in
    let src : Mem = λ j. s.ram (x.dataptr + j) in
    elim (compare_le size 4) [
      | inl l ↦
          let c1 = (init_coesdo n 3 (0x43 + dss x.bitlength) i k e c).1 in
          let r =
            finish-mem e (fill_expedited n size x e c1).1 n i k x.flags a
            ∙ expedited_state e c1 n size x w.has_data in
          subst (λ (u : Unit {0} × Slave). Answers e s x (u.1))
            (sym (short_state e c i k x n w.no_hook_before l))
            (ap (λ (m : Mem). reply_data m (reply_base e s)) r
              ∙ expedited-data c.mem src (reply_base e s) i k x.bitlength w.some_bits
                  (ground (arith, w.in_range))
              ∙ bytes_shift s.ram x.dataptr size)
      | inr l ↦
          let c1 = (init_coesdo n 3 0x41 i k e c).1 in
          let r =
            finish-mem e (fill_normal n size x e c1).1 n i k x.flags a
            ∙ whole_state e c1 n size x (ground (arith, w.carried, w.small)) in
          subst (λ (u : Unit {0} × Slave). Answers e s x (u.1))
            (sym (reply_state e c i k x n w.no_hook_before l))
            (ap (λ (m : Mem). reply_data m (reply_base e s)) r
              ∙ normal-data c.mem src (reply_base e s) i k size (omega (arith, w.carried, w.small))
              ∙ bytes_shift s.ram x.dataptr size)
    ]

upload-Answers :
    (e : Env) (s : Slave) (x : Entry) (o : Object) (nsub : ℕ)
    → Reads e s x o nsub
    → Accepts e
    → 0 < find_idle e s
    → Answers e s x (sdo_upload e s).1
upload-Answers e s x o nsub w a h =
    subst (λ (u : Unit {0} × Slave). Answers e s x (u.1))
      (sym (opened e s x o nsub w.located w.entry w.readable h)) (reply-Answers e s x o nsub w a)

stored-bytes :
    (s : Slave) (x : Entry) (n : ℕ) → bytes (stored s x n) x.dataptr n ≡ bytes s.mem (data_at s) n
stored-bytes s x n =
    bytes-blit s.ram (λ j. s.mem (data_at s + j)) x.dataptr n ∙ bytes_shift s.mem (data_at s) n

-- What was downloaded is what an upload reads: after SDO_download of an entry (writable in this state, of the
-- entry's size, in one message, no mapping object, with no download handlers), an upload of the same entry that one
-- message carries (readable, with a buffer idle, with no upload hook before and one after that refuses nothing)
-- answers with the bytes of the download request, however many messages and calls lie between that leave
-- the application's memory alone.
pub download_upload :
    (e : Env) (s u : Slave) (x : Entry) (o : Object) (nsub : ℕ)
    → Plain e
    → Writes e s x o nsub
    → u.ram ≡ (sdo_download e s).1.ram
    → Reads e u x o nsub
    → Accepts e
    → 0 < find_idle e u
    → reply_data (sdo_upload e u).1.mem (reply_base e u) ≡ bytes s.mem (data_at s) (stated_size s)
download_upload e s u x o nsub p w same r a h =
    let size = bits_to_bytes x.bitlength in
    upload-Answers e u x o nsub r a h
    ∙ ap (λ (m : Mem). bytes m x.dataptr size) (same ∙ sdo_download-ram e s x o nsub p w)
    ∙ ap (λ k. bytes (stored s x k) x.dataptr size) w.fits
    ∙ stored-bytes s x size
    ∙ ap (bytes s.mem (data_at s)) (sym w.fits)

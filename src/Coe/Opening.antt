-- ===== src/Coe/Opening.antt =====
-- The first message of a segmented upload (SDO_upload of soes/esc_coe.c), and the upload as a whole.
use soes.Base.{
  ℕ, suc, ◌+◌, ◌-◌, ◌*◌, ◌≤◌, ◌<◌, ◌≡◌, refl, sym, ap, ◌∙◌, true, Option, none, some, List, ◌++◌,
  if-elim, arith, u16, sub32,
}
use mathlib.Core.Path.{subst, ap₂}
use mathlib.Core.Option.{map}
use soes.Base.Memory.{Mem, bytes, load16, load32, store16, store32, store8, load8}
use soes.Codes.MbxType
use soes.Mailbox.{claimed, find_idle}
use soes.Pdo.{entry_at}
use soes.Slave.{Entry, Object, Mailbox, Env, Slave, M, blit}
use soes.Coe.{
  call_hook, upload_pre, init_coesdo, set_size, set_length, copy_out, start_segments, no_segments,
  fill_normal, finish_upload, queue, release_inbox, upload_reply, upload_entry, upload_located,
  sdo_upload, bits_to_bytes, needs_segments, mbx_data_size, read_access, locate, found, index_in,
  subindex_in, Located,
}
use soes.Coe.Content.{claimed-found, size_at}
use soes.Coe.Payload.{bytes-blit, bytes_shift, bytes_join}
use soes.Coe.Sending.{Sending, chunk, to_go, reply_base}
use soes.Coe.Segments.{Accepts}
use soes.Coe.Delivery.{Between-bytes, Between, Transfer, Transfer-Delivers, kept_Sending}

pub no_hook :
    {A B : Type 0} (hook : Option A) (f : A → Mem → B × Mem) (b : B) (e : Env) (s : Slave)
    → hook ≡ none
    → call_hook b (map f hook) e s ≡ (b, s)
unfolding call_hook
no_hook none f b e s q = refl
no_hook (some h) f b e s q = absurd (ground (arith, q))

pub upload_pre-none :
    (e : Env) (s : Slave) (index subindex dataptr size flags : ℕ)
    → e.sdo.pre_object_upload_hook ≡ none
    → upload_pre index subindex dataptr size flags e s ≡ ((0, size), s)
unfolding upload_pre
upload_pre-none e s index subindex dataptr size flags q =
    no_hook e.sdo.pre_object_upload_hook (λ h ram. h ram index subindex dataptr size flags)
      (0, size) e s q

-- "normal response", with segments to follow.
filled_state :
    (e : Env) (c : Slave) (n size : ℕ) (o : Entry) (index subindex : ℕ)
    → needs_segments size c ≡ true
    → let now = sub32 (mbx_data_size c) 10 in
      let t = (finish_upload n index subindex o.flags e (fill_normal n size o e c).1).1 in
      (t.mem
        ≡ blit
            (store16 (store32 c.mem (n * c.mbx.size + 12) size) (n * c.mbx.size) (u16 (10 + now)))
            (n * c.mbx.size + 16)
            now
            (λ j. c.ram (o.dataptr + j)))
      × (t.mbx ≡ record (c.mbx) {
        frags = size;
        fragsleft = now;
        segmented = MbxType.seu;
        dataptr = o.dataptr;
        flags = o.flags;
        xoe = 0;
      })
      × (t.ram ≡ c.ram)
unfolding fill_normal start_segments no_segments set_size set_length copy_out finish_upload queue
    release_inbox
filled_state e c n size o index subindex h = ground arith

pub reply_state :
    (e : Env) (c : Slave) (index subindex : ℕ) (o : Entry) (n : ℕ)
    → e.sdo.pre_object_upload_hook ≡ none
    → 4 < bits_to_bytes o.bitlength
    → upload_reply index subindex o n e c
      ≡ finish_upload n index subindex o.flags e
          (fill_normal n
            (bits_to_bytes o.bitlength)
            o
            e
            (init_coesdo n 3 0x41 index subindex e c).1).1
unfolding upload_reply
reply_state e c index subindex o n q l =
    let size = bits_to_bytes o.bitlength in
    let c1 = (init_coesdo n 3 0x41 index subindex e c).1 in
    ground (arith, upload_pre-none e c1 index subindex o.dataptr size o.flags q)

-- An upload of an entry that is readable and does not fit into one message.
pub record Long (e : Env) (s : Slave) (x : Entry) (o : Object) (nsub : ℕ) : Type 0 where
  pub located : locate (index_in s) (subindex_in s) s.objects ≡ found o nsub
  pub entry : entry_at o.entries nsub ≡ x
  pub readable : read_access x.flags s.al.status ≡ true
  pub no_hook_before : e.sdo.pre_object_upload_hook ≡ none
  pub long : s.mbx.size < bits_to_bytes x.bitlength + 16
  pub in_range : bits_to_bytes x.bitlength < 2147483648
  pub room : 24 < s.mbx.size
  pub small : s.mbx.size < 65536

-- SDO_upload of a readable entry, where ESC_claimbuffer gives a buffer.
pub opened :
    (e : Env) (s : Slave) (x : Entry) (o : Object) (nsub : ℕ)
    → locate (index_in s) (subindex_in s) s.objects ≡ found o nsub
    → entry_at o.entries nsub ≡ x
    → read_access x.flags s.al.status ≡ true
    → 0 < find_idle e s
    → sdo_upload e s
      ≡ upload_reply (index_in s) (subindex_in s) x (find_idle e s) e (claimed (find_idle e s) s)
unfolding sdo_upload upload_located upload_entry
opened e s x o nsub located entry readable h =
    let i = index_in s in
    let k = subindex_in s in
    let t = upload_reply i k x (find_idle e s) e (claimed (find_idle e s) s) in
    subst (λ (l : Located). upload_located i k l e s ≡ t) (sym located)
      (subst (λ (y : Entry). upload_entry i k y e s ≡ t) (sym entry)
        (if-elim (λ (m : M (Unit {0})). m e s ≡ t) (read_access x.flags s.al.status)
          (λ _. claimed-found release_inbox (upload_reply i k x) e s h)
          (λ z. absurd (ground (arith, readable)))))

-- The data of the first message at offset `base`.
abbrev pub first_data : Mem → ℕ → List ℕ
first_data m base = bytes m (base + 16) (load16 m base - 10)

-- What the first message is: the total size, and the first bytes; and the transfer that it opens.
abbrev pub Opens : Env → Slave → Entry → Slave → Type 0
Opens e s x t =
    (size_at t.mem (reply_base e s) ≡ bits_to_bytes x.bitlength)
    × (first_data t.mem (reply_base e s) ≡ bytes s.ram x.dataptr (s.mbx.size - 16))
    × Sending t
    × (t.mbx.dataptr ≡ x.dataptr)
    × (t.mbx.fragsleft ≡ s.mbx.size - 16)
    × (t.mbx.frags ≡ bits_to_bytes x.bitlength)
    × (t.ram ≡ s.ram)
    × (t.mbx.size ≡ s.mbx.size)

pub size_of :
    (m src : Mem) (base size n len : ℕ)
    → size < 4294967296
    → size_at (blit (store16 (store32 m (base + 12) size) base len) (base + 16) n src) base ≡ size
unfolding blit load8 load16 load32 store8 store16 store32
size_of m src base size n len h = ground arith

length_of :
    (m src : Mem) (base size n : ℕ)
    → n + 10 < 65536
    → load16 (blit (store16 (store32 m (base + 12) size) base (10 + n)) (base + 16) n src) base - 10
      ≡ n
unfolding blit load8 load16 load32 store8 store16 store32
length_of m src base size n h = ground arith

first_read :
    (m ram : Mem) (base at size n : ℕ) (t : Mem) (now len : ℕ)
    → t ≡ blit (store16 (store32 m (base + 12) size) base len) (base + 16) now (λ j. ram (at + j))
    → now ≡ n
    → len ≡ 10 + n
    → n + 10 < 65536
    → size < 4294967296
    → (size_at t base ≡ size) × (first_data t base ≡ bytes ram at n)
first_read m ram base at size n t now len q p l h k =
    let src : Mem = λ j. ram (at + j) in
    let g : Mem = blit (store16 (store32 m (base + 12) size) base (10 + n)) (base + 16) n src in
    let r : t ≡ g =
      q ∙ ap₂ (λ a b. blit (store16 (store32 m (base + 12) size) base b) (base + 16) a src) p l in
    (
      ap (λ (x : Mem). size_at x base) r ∙ size_of m src base size n (10 + n) k,
      ap (λ (x : Mem). first_data x base) r
          ∙ ap (bytes g (base + 16)) (length_of m src base size n h)
          ∙ bytes-blit _ src (base + 16) n
          ∙ bytes_shift ram at n,
    )

reply-Opens :
    (e : Env) (s : Slave) (x : Entry) (o : Object) (nsub : ℕ)
    → Long e s x o nsub
    → Opens e s x
        (upload_reply
          (index_in s)
          (subindex_in s)
          x
          (find_idle e s)
          e
          (claimed (find_idle e s) s)).1
unfolding claimed init_coesdo
reply-Opens e s x o nsub w =
    let n = find_idle e s in
    let c = claimed n s in
    let size = bits_to_bytes x.bitlength in
    let i = index_in s in
    let k = subindex_in s in
    let c1 = (init_coesdo n 3 0x41 i k e c).1 in
    let q = filled_state e c1 n size x i k (ground (arith, w.long, w.in_range, w.room, w.small)) in
    let now : sub32 (mbx_data_size c) 10 ≡ s.mbx.size - 16 = ground (arith, w.room, w.small) in
    let t = (finish_upload n i k x.flags e (fill_normal n size x e c1).1).1 in
    let d =
      first_read c1.mem s.ram (reply_base e s) x.dataptr size (s.mbx.size - 16) t.mem
        (sub32 (mbx_data_size c) 10) (u16 (10 + sub32 (mbx_data_size c) 10)) (q.0) now
        (ground (arith, w.room, w.small)) (ground (arith, w.room, w.small))
        (ground (arith, w.in_range)) in
    let left : t.mbx.fragsleft ≡ s.mbx.size - 16 = ap (λ (b : Mailbox). b.fragsleft) (q.1) ∙ now in
    let all : t.mbx.frags ≡ size = ap (λ (b : Mailbox). b.frags) (q.1) in
    let width : t.mbx.size ≡ s.mbx.size = ap (λ (b : Mailbox). b.size) (q.1) in
    subst (λ (r : Unit {0} × Slave). Opens e s x (r.1))
      (sym (reply_state e c i k x n w.no_hook_before (ground (arith, w.long, w.room))))
      (
        d.0,
        d.1,
        record {
          segmented = ap (λ (b : Mailbox). b.segmented) (q.1);
          some_left = omega (arith, left, all, w.long);
          in_range = omega (arith, all, w.in_range);
          room = omega (arith, width, w.room);
          small = omega (arith, width, w.small);
        },
        ap (λ (b : Mailbox). b.dataptr) (q.1),
        left,
        all,
        q.2,
        width,
      )

pub upload-Opens :
    (e : Env) (s : Slave) (x : Entry) (o : Object) (nsub : ℕ)
    → Long e s x o nsub
    → 0 < find_idle e s
    → Opens e s x (sdo_upload e s).1
upload-Opens e s x o nsub w h =
    subst (λ (u : Unit {0} × Slave). Opens e s x (u.1))
      (sym (opened e s x o nsub w.located w.entry w.readable h)) (reply-Opens e s x o nsub w)

-- A segmented upload delivers the entry. Where SDO_upload answers for a readable entry that does not fit
-- into one message (with no upload hook before, and one after that refuses nothing), the first message states the
-- entry's size, and its data with those of the segments that follow, up to the one marked as last, are the
-- bytes of the entry in order: whatever happens between the requests, as long as it leaves the transfer and
-- the entry's bytes alone and a buffer is idle at each request. With `k` segments before the last, `k` segments
-- could not hold what the first message leaves, and `k + 1` can: they are as few as possible.
pub upload_delivers :
    (e : Env) (s : Slave) (x : Entry) (o : Object) (nsub : ℕ) (s' : Slave) (k : ℕ) (xs : List ℕ)
    → Long e s x o nsub
    → Accepts e
    → 0 < find_idle e s
    → let t = (sdo_upload e s).1 in
      Between e t s'
      → Transfer e s' k xs
      → let size = bits_to_bytes x.bitlength in
        (size_at t.mem (reply_base e s) ≡ size)
        × (first_data t.mem (reply_base e s) ++ xs ≡ bytes s.ram x.dataptr size)
        × (k * chunk s < size - (s.mbx.size - 16))
        × (size - (s.mbx.size - 16) ≤ suc k * chunk s)
upload_delivers e s x o nsub s' k xs w acc h b r =
    let t = (sdo_upload e s).1 in
    let size = bits_to_bytes x.bitlength in
    let first = s.mbx.size - 16 in
    let p = upload-Opens e s x o nsub w h in
    let d = Transfer-Delivers e s' k xs acc (kept_Sending e t s' (p.2) b) b.idle_again r in
    let left : to_go s' ≡ size - first = omega (arith, p.4, p.5, b.same_left, b.same_frags) in
    let from : s'.mbx.dataptr + s'.mbx.fragsleft ≡ x.dataptr + first =
      omega (arith, p.3, p.4, b.same_left, b.same_data) in
    let step : chunk s' ≡ chunk s = omega (arith, p.7, b.same_size) in
    let rest : xs ≡ bytes s.ram (x.dataptr + first) (size - first) =
      d.0
      ∙ ap₂ (bytes s'.ram) from left
      ∙ ap (λ i. bytes s'.ram i (size - first)) (omega (arith, p.3, p.4))
      ∙ Between-bytes e t s' t.mbx.fragsleft (size - first) b (omega (arith, p.4, p.5, w.long))
      ∙ ap (λ i. bytes t.ram i (size - first)) (omega (arith, p.3, p.4))
      ∙ ap (λ m. bytes m (x.dataptr + first) (size - first)) (p.6) in
    let whole : first + (size - first) ≡ size = omega (arith, w.long) in
    (
      p.0,
      ap₂ (λ us vs. us ++ vs) (p.1) rest
          ∙ bytes_join s.ram x.dataptr first (size - first)
          ∙ ap (bytes s.ram x.dataptr) whole,
      subst (λ n. n < size - first) (ap (λ c. k * c) step)
          (subst (λ n. k * chunk s' < n) left (d.1)),
      subst (λ n. size - first ≤ n) (ap (λ c. suc k * c) step)
          (subst (λ n. n ≤ suc k * chunk s') left (d.2)),
    )

-- ===== src/Coe/Sending.antt =====
-- The state of an upload under way (SDO_uploadsegment of soes/esc_coe.c), and each of its segments.
use soes.Base.{
  ℕ, ◌+◌, ◌-◌, ◌*◌, ◌≤◌, ◌<◌, ◌≡◌, ◌⊎◌, sym, ap, ◌∙◌, if◌then◌else◌, arith, leb, u16, u32, sub32,
}
use soes.Base.Memory.{Mem, bytes, store8, store16}
use soes.Codes.MbxType
use soes.Mailbox.{claimed, find_idle}
use mathlib.Core.Path.{subst, ap₂}
use soes.Slave.{Mailbox, Env, Slave, blit}
use soes.Coe.{
  sdo_header, toggle_in, index_in, subindex_in, upload_segment, sdo_uploadsegment, segment_reply,
  init_coesdo, release_inbox, mbx_data_size,
}
use soes.Coe.Content.{claimed-found}
use soes.Coe.Payload.{segment_data, is_last, middle, final, middle-data, final-data, bytes_shift}
use soes.Coe.Segments.{middle_state, Accepts, last_state}

-- An upload is under way, and the mailboxes have room for more than a header.
pub record Sending (s : Slave) : Type 0 where
  pub segmented : s.mbx.segmented ≡ MbxType.seu
  pub some_left : s.mbx.fragsleft < s.mbx.frags
  pub in_range : s.mbx.frags < 2147483648
  pub room : 16 < s.mbx.size
  pub small : s.mbx.size < 65536

-- The bytes of a full segment, and those still to be sent.
abbrev pub chunk : Slave → ℕ
chunk s = s.mbx.size - 9

abbrev pub to_go : Slave → ℕ
to_go s = s.mbx.frags - s.mbx.fragsleft

-- What a segment of `n` bytes leaves of the transfer.
pub record Advances (n : ℕ) (s t : Slave) : Type 0 where
  pub done : t.mbx.fragsleft ≡ s.mbx.fragsleft + n
  pub same_frags : t.mbx.frags ≡ s.mbx.frags
  pub same_data : t.mbx.dataptr ≡ s.mbx.dataptr
  pub same_kind : t.mbx.segmented ≡ s.mbx.segmented
  pub same_size : t.mbx.size ≡ s.mbx.size
  pub same_ram : t.ram ≡ s.ram

toggle_cases : (s : Slave) → (toggle_in s ≡ 0) ⊎ (toggle_in s ≡ 16)
toggle_cases s = ground arith

-- The reply of a segment, where ESC_claimbuffer gives a buffer.
abbrev pub reply_base : Env → Slave → ℕ
reply_base e s = find_idle e s * s.mbx.size

segment_sent :
    (e : Env) (s : Slave)
    → 0 < find_idle e s
    → sdo_uploadsegment e s ≡ upload_segment (find_idle e s) e (claimed (find_idle e s) s)
unfolding sdo_uploadsegment
segment_sent e s h = claimed-found release_inbox upload_segment e s h

-- The memory after a segment, with what the master reads from it.
middle_read :
    (m ram : Mem) (base at index subindex toggle n : ℕ) (t : Mem) (now len : ℕ)
    → t
      ≡ blit
          (store16 (sdo_header base 10 3 toggle index subindex m) base len)
          (base + 9)
          now
          (λ j. ram (at + j))
    → now ≡ n
    → len ≡ 3 + n
    → (toggle ≡ 0) ⊎ (toggle ≡ 16)
    → n + 3 < 65536
    → 0 < n
    → (segment_data t base ≡ bytes ram at n) × (is_last t base ≡ 0)
middle_read m ram base at index subindex toggle n t now len q p l g h k =
    let src : Mem = λ j. ram (at + j) in
    let r : t ≡ middle m src base index subindex toggle n =
      q
      ∙ ap₂
          (λ a b.
            blit (store16 (sdo_header base 10 3 toggle index subindex m) base b) (base + 9) a src)
          p l in
    let d = middle-data m src base index subindex toggle n g h k in
    (
      ap (λ (x : Mem). segment_data x base) r ∙ d.0 ∙ bytes_shift ram at n,
      ap (λ (x : Mem). is_last x base) r ∙ d.1,
    )

-- What one segment is: the data, whether it is the last, and what is left of the transfer.
abbrev Middle : Env → Slave → Slave → Type 0
Middle e s t =
    (segment_data t.mem (reply_base e s) ≡ bytes s.ram (s.mbx.dataptr + s.mbx.fragsleft) (chunk s))
    × (is_last t.mem (reply_base e s) ≡ 0)
    × Advances (chunk s) s t

middle_advances :
    (s t : Slave) (now : ℕ)
    → Sending s
    → chunk s < to_go s
    → now ≡ chunk s
    → t.mbx.fragsleft ≡ u32 (s.mbx.fragsleft + now)
    → t.mbx.fragsleft ≡ s.mbx.fragsleft + chunk s
middle_advances s t now w g p q = ground (arith, w.some_left, w.in_range, w.room, w.small)

claimed-Middle :
    (e : Env) (s : Slave)
    → Sending s
    → chunk s < to_go s
    → Middle e s (upload_segment (find_idle e s) e (claimed (find_idle e s) s)).1
unfolding upload_segment claimed init_coesdo
claimed-Middle e s w g =
    let n = find_idle e s in
    let c = claimed n s in
    let t =
      (segment_reply n s.mbx.fragsleft (sub32 s.mbx.frags s.mbx.fragsleft) (toggle_in c)
        (index_in c) (subindex_in c) e c).1 in
    let q =
      middle_state e c n s.mbx.fragsleft (sub32 s.mbx.frags s.mbx.fragsleft) (toggle_in c)
        (index_in c) (subindex_in c) (ground (arith, w.segmented))
        (ground (arith, w.some_left, w.in_range, w.room, w.small)) in
    let now : sub32 (mbx_data_size c) 3 ≡ chunk s = ground (arith, w.room, w.small) in
    let d =
      middle_read c.mem s.ram (reply_base e s) (s.mbx.dataptr + s.mbx.fragsleft) (index_in c)
        (subindex_in c) (toggle_in c) (chunk s) t.mem (sub32 (mbx_data_size c) 3)
        (u16 (3 + sub32 (mbx_data_size c) 3)) (q.0) now (ground (arith, w.room, w.small))
        (toggle_cases c) (ground (arith, w.room, w.small)) (ground (arith, w.room, w.small)) in
    (
      d.0,
      d.1,
      record {
        done = middle_advances s t _ w g now (ap (λ (b : Mailbox). b.fragsleft) (q.1));
        same_frags = ap (λ (b : Mailbox). b.frags) (q.1);
        same_data = ap (λ (b : Mailbox). b.dataptr) (q.1);
        same_kind = ap (λ (b : Mailbox). b.segmented) (q.1);
        same_size = ap (λ (b : Mailbox). b.size) (q.1);
        same_ram = q.2;
      },
    )

pub Middle-step :
    (e : Env) (s : Slave)
    → Sending s
    → 0 < find_idle e s
    → chunk s < to_go s
    → Middle e s (sdo_uploadsegment e s).1
Middle-step e s w h g =
    subst (λ (r : Unit {0} × Slave). Middle e s (r.1)) (sym (segment_sent e s h))
      (claimed-Middle e s w g)

abbrev Last : Env → Slave → Slave → Type 0
Last e s t =
    (segment_data t.mem (reply_base e s) ≡ bytes s.ram (s.mbx.dataptr + s.mbx.fragsleft) (to_go s))
    × (is_last t.mem (reply_base e s) ≡ 1)

final_read :
    (m ram : Mem) (base at index subindex toggle n : ℕ) (t : Mem) (size : ℕ)
    → t
      ≡ blit
          (store16
            (store8
              (sdo_header base 10 3 toggle index subindex m)
              (base + 8)
              (toggle + 1 + (if leb 7 size then 0 else (7 - size) * 2)))
            base
            (if leb 7 size then u16 (3 + size) else 10))
          (base + 9)
          size
          (λ j. ram (at + j))
    → size ≡ n
    → (toggle ≡ 0) ⊎ (toggle ≡ 16)
    → n + 3 < 65536
    → (segment_data t base ≡ bytes ram at n) × (is_last t base ≡ 1)
final_read m ram base at index subindex toggle n t size q p g h =
    let src : Mem = λ j. ram (at + j) in
    let r : t ≡ final m src base index subindex toggle n =
      q ∙ ap (λ a. final m src base index subindex toggle a) p in
    let d = final-data m src base index subindex toggle n g h in
    (
      ap (λ (x : Mem). segment_data x base) r ∙ d.0 ∙ bytes_shift ram at n,
      ap (λ (x : Mem). is_last x base) r ∙ d.1,
    )

claimed-Last :
    (e : Env) (s : Slave)
    → Sending s
    → Accepts e
    → to_go s ≤ chunk s
    → Last e s (upload_segment (find_idle e s) e (claimed (find_idle e s) s)).1
unfolding upload_segment claimed init_coesdo
claimed-Last e s w a g =
    let n = find_idle e s in
    let c = claimed n s in
    let size = sub32 s.mbx.frags s.mbx.fragsleft in
    final_read c.mem s.ram (reply_base e s) (s.mbx.dataptr + s.mbx.fragsleft) (index_in c)
      (subindex_in c) (toggle_in c) (to_go s)
      (segment_reply n s.mbx.fragsleft size (toggle_in c) (index_in c) (subindex_in c) e c).1.mem
      size
      (last_state e c n s.mbx.fragsleft size (toggle_in c) (index_in c) (subindex_in c) a
        (ground (arith, w.some_left, w.in_range, w.room, w.small)))
      (ground (arith, w.some_left, w.in_range)) (toggle_cases c) (ground (arith, w.room, w.small))

pub Last-step :
    (e : Env) (s : Slave)
    → Sending s
    → Accepts e
    → 0 < find_idle e s
    → to_go s ≤ chunk s
    → Last e s (sdo_uploadsegment e s).1
Last-step e s w a h g =
    subst (λ (r : Unit {0} × Slave). Last e s (r.1)) (sym (segment_sent e s h))
      (claimed-Last e s w a g)

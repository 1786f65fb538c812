-- ===== src/Coe/Segments.antt =====
-- The slave after a segment of an upload (SDO_uploadsegment of soes/esc_coe.c).
use soes.Base.{
  Option, none, some, ℕ, ◌+◌, ◌-◌, ◌*◌, ◌≡◌, ◌≢◌, refl, true, false, if◌then◌else◌, if-elim, arith,
  ltb, leb, u16, u32, sub32,
}
use soes.Base.Memory.{Mem, store8, store16}
use soes.Slave.{Env, Slave, M, blit}
use soes.Coe.{
  call_hook, segment_reply, init_coesdo, middle_segment, last_segment, set_length, set_command,
  finish_segment, copy_out, finish_upload, queue, release_inbox, mbx_data_size, upload_post,
}

-- After a segment that is not the last.
pub middle_state :
    (e : Env) (c : Slave) (n offset size toggle index subindex : ℕ)
    → c.mbx.segmented ≢ 0
    → ltb (mbx_data_size c) (u32 (size + 3)) ≡ true
    → let now = sub32 (mbx_data_size c) 3 in
      let t = (segment_reply n offset size toggle index subindex e c).1 in
      (t.mem
        ≡ blit
            (store16
              (init_coesdo n 3 toggle index subindex e c).1.mem
              (n * c.mbx.size)
              (u16 (3 + now)))
            (n * c.mbx.size + 9)
            now
            (λ j. c.ram (c.mbx.dataptr + offset + j)))
      × (t.mbx ≡ record (c.mbx) { fragsleft = u32 (c.mbx.fragsleft + now); xoe = 0 })
      × (t.ram ≡ c.ram)
unfolding segment_reply middle_segment last_segment set_length set_command finish_segment copy_out
    finish_upload queue release_inbox init_coesdo
middle_state e c n offset size toggle index subindex q h = ground arith

-- The application's post handler refuses no upload.
abbrev pub Accepts : Env → Type 0
Accepts e = (index subindex flags : ℕ) (s : Slave) → (upload_post index subindex flags e s).0 ≡ 0

call_hook-mem :
    (a : ℕ) (hook : Option (Mem → ℕ × Mem)) (e : Env) (s : Slave)
    → (call_hook a hook e s).1.mem ≡ s.mem
unfolding call_hook
call_hook-mem a none e s = refl
call_hook-mem a (some h) e s = refl

pub upload_post-mem :
    (index subindex flags : ℕ) (e : Env) (s : Slave)
    → (upload_post index subindex flags e s).1.mem ≡ s.mem
unfolding upload_post
upload_post-mem index subindex flags e s = call_hook-mem 0 _ e s

-- The mailbox reply that goes out after the post handler.
finish_accepted :
    (e : Env) (s : Slave) (n index subindex flags : ℕ)
    → Accepts e
    → s.mbx.segmented ≡ 0
    → (finish_upload n index subindex flags e s).1.mem ≡ s.mem
unfolding finish_upload queue release_inbox
finish_accepted e s n index subindex flags a q =
    ground (arith, a index subindex flags s, upload_post-mem index subindex flags e s)

finish_segment-mem :
    (e : Env) (s : Slave) (n offset index subindex now : ℕ)
    → Accepts e
    → s.mbx.segmented ≡ 0
    → (finish_segment n offset index subindex now e s).1.mem
      ≡ blit s.mem (n * s.mbx.size + 9) now (λ j. s.ram (s.mbx.dataptr + offset + j))
unfolding finish_segment copy_out
finish_segment-mem e s n offset index subindex now a q =
    finish_accepted e _ n index subindex s.mbx.flags a q

-- After the last segment.
pub last_state :
    (e : Env) (c : Slave) (n offset size toggle index subindex : ℕ)
    → Accepts e
    → ltb (mbx_data_size c) (u32 (size + 3)) ≡ false
    → (segment_reply n offset size toggle index subindex e c).1.mem
      ≡ blit
          (store16
            (store8
              (init_coesdo n 3 toggle index subindex e c).1.mem
              (n * c.mbx.size + 8)
              (toggle + 1 + (if leb 7 size then 0 else (7 - size) * 2)))
            (n * c.mbx.size)
            (if leb 7 size then u16 (3 + size) else 10))
          (n * c.mbx.size + 9)
          size
          (λ j. c.ram (c.mbx.dataptr + offset + j))
unfolding segment_reply middle_segment last_segment set_length set_command finish_segment copy_out
    init_coesdo
last_state e c n offset size toggle index subindex a h =
    let c1 = (init_coesdo n 3 toggle index subindex e c).1 in
    let b = n * c.mbx.size in
    if-elim
      (λ (m : M ℕ).
        (finish_segment n offset index subindex (m e c1).0 e (m e c1).1).1.mem
        ≡ blit
            (store16
              (store8 c1.mem (b + 8) (toggle + 1 + (if leb 7 size then 0 else (7 - size) * 2))) b
              (if leb 7 size then u16 (3 + size) else 10))
            (b + 9) size (λ j. c.ram (c.mbx.dataptr + offset + j)))
      (ltb (mbx_data_size c) (u32 (size + 3))) (λ z. absurd (ground arith))
      (λ _.
        finish_segment-mem e (last_segment n toggle size e c1).1 n offset index subindex size a
          refl)

-- ===== src/Coe/Uploads.antt =====
-- The uploads of soes/esc_coe.c and the mailbox layer.
use soes.Base.{
  ℕ, ◌+◌, ◌≡◌, refl, false, ◌==◌, if◌then◌else◌, if-elim, arith, List, sub32, ◌*◌, ltb, leb,
  set_bit, u16, u32,
}
use soes.Codes.Coe
use soes.Codes.Abort
use soes.Pdo.{entry_at}
use soes.Slave.{Entry, Object, set_mbx}
use soes.Slave.Hoare.{
  Takes, Holds, bind-Takes, seq-Takes, branch-Takes, split-Takes, pure-Takes, when-Takes,
}
use soes.Coe.{
  init_coesdo, release_inbox, set_state_idle, bits_to_bytes, dss, complete_dss, needs_segments,
  fill_expedited, fill_normal, finish_upload, upload_reply, upload_entry, upload_located,
  sdo_upload, fill_complete, complete_normal, upload_all, set_length, set_command, send_complete,
  upload_complete, upload_target, sdo_upload_complete_access, middle_segment, last_segment,
  finish_segment, segment_reply, upload_segment, sdo_uploadsegment, read_access,
  complete_access_flag, Located, no_object, no_subindex, found, locate, Target, refused, target,
  to_target, complete_size, complete_access_target, index_in, subindex_in, toggle_in, mbx_data_size,
}
use soes.Coe.Claims.{
  Claims, IsSteady, claims-IsSteady, steady-Takes, modify-Takes, Service, Done, queue-Takes,
  rest-Takes, done-Takes,
}
use soes.Coe.Steps.{
  init_coesdo-Takes, set_size-Takes, set_length-Takes, copy_out-Takes, start_segments-Takes,
  no_segments-Takes, upload_pre-Takes, upload_post-Takes,
}
use soes.Coe.Replies.{given-Takes, idle_claimed-Takes, abort-Takes, idle-Takes, idle_any-Takes}

pub finish_upload-Takes :
    (n index subindex flags : ℕ) → Takes (Claims n) (finish_upload n index subindex flags) (Done n)
unfolding finish_upload
finish_upload-Takes n index subindex flags = record {
  after = λ e s p.
      (bind-Takes
          (branch-Takes (s.mbx.segmented == 0)
            (upload_post-Takes (claims-IsSteady n) index subindex flags) pure-Takes)
          (λ code.
            split-Takes (code == 0) (λ _. seq-Takes (queue-Takes n) (done-Takes n))
              (λ z. idle_claimed-Takes n index subindex code z))).after
        e s p;
}

-- The normal response is filled.
fill_normal-Takes :
    {P : Holds} (h : IsSteady P) (n size : ℕ) (o : Entry) → Takes P (fill_normal n size o) P
unfolding fill_normal
fill_normal-Takes h n size o =
    seq-Takes (modify-Takes h (set_mbx (λ b. record b { frags = size })) (λ s. refl)) (
      seq-Takes (set_size-Takes h n size) (record {
        after = λ e s p.
            (bind-Takes
                (branch-Takes (needs_segments size s) (start_segments-Takes h o.dataptr o.flags)
                  (no_segments-Takes h size))
                (λ now.
                  seq-Takes (set_length-Takes h n (u16 (Coe.header_size + now)))
                    (copy_out-Takes h n 16 o.dataptr now))).after
              e s p;
      }))

fill_expedited-Takes :
    {P : Holds} (h : IsSteady P) (n size : ℕ) (o : Entry) → Takes P (fill_expedited n size o) P
unfolding fill_expedited
fill_expedited-Takes h n size o =
    branch-Takes (o.dataptr == 0) (set_size-Takes h n (o.value))
      (copy_out-Takes h n 12 o.dataptr size)

pub upload_reply-Takes :
    (index subindex : ℕ) (o : Entry) (n : ℕ)
    → Takes (Claims n) (upload_reply index subindex o n) (Done n)
unfolding upload_reply
upload_reply-Takes index subindex o n =
    let size = bits_to_bytes o.bitlength in
    let st = claims-IsSteady n in
    seq-Takes
      (init_coesdo-Takes st n Coe.sdo_response (if leb size 4 then 0x43 + dss o.bitlength else 0x41)
        index subindex)
      (bind-Takes (upload_pre-Takes st index subindex o.dataptr size o.flags) (λ answer.
        split-Takes (answer.0 == 0)
          (λ _.
            seq-Takes
              (branch-Takes (leb size 4) (fill_expedited-Takes st n (u32 (answer.1)) o)
                (fill_normal-Takes st n (u32 (answer.1)) o))
              (finish_upload-Takes n index subindex o.flags))
          (λ z. idle_claimed-Takes n index subindex (answer.0) z)))

complete_normal-Takes :
    {P : Holds} (h : IsSteady P) (n mbxdata size : ℕ) → Takes P (complete_normal n mbxdata size) P
unfolding complete_normal
complete_normal-Takes h n mbxdata size = seq-Takes (set_size-Takes h n size) (record {
  after = λ e s p.
      (seq-Takes
          (when-Takes (needs_segments size s)
            (modify-Takes h (set_mbx (λ b. record b { frags = size })) (λ t. refl)))
          (bind-Takes
            (branch-Takes (needs_segments size s)
              (start_segments-Takes h mbxdata complete_access_flag) (pure-Takes {a = size}))
            (λ now.
              seq-Takes (set_length-Takes h n (u16 (Coe.header_size + now)))
                (copy_out-Takes h n 16 mbxdata now)))).after
        e s p;
})

fill_complete-Takes : {P : Holds} (h : IsSteady P) (n size : ℕ) → Takes P (fill_complete n size) P
unfolding fill_complete
fill_complete-Takes h n size = record {
  after = λ e s p.
      (branch-Takes (leb size 4) (copy_out-Takes h n 12 e.sdo.mbxdata size)
          (complete_normal-Takes h n e.sdo.mbxdata size)).after
        e s p;
}

send_complete-Takes :
    (n index subindex : ℕ) (o : Object) (nsub dss size : ℕ)
    → Takes (Claims n) (send_complete n index subindex o nsub dss size) (Done n)
unfolding send_complete
send_complete-Takes n index subindex o nsub dss size =
    let st = claims-IsSteady n in
    record {
      after = λ e s p.
          (seq-Takes
              (modify-Takes st
                (λ t. record t { ram = upload_all t.al.status e.sdo.mbxdata o nsub t.ram })
                (λ s'. refl))
              (seq-Takes
                (init_coesdo-Takes st n Coe.sdo_response (if leb size 4 then 0x53 + dss else 0x51)
                  index subindex)
                (seq-Takes
                  (modify-Takes st (set_mbx (λ b. record b { segmented = 0 })) (λ s'. refl))
                  (seq-Takes (fill_complete-Takes st n size) (
                    finish_upload-Takes n index subindex
                      (set_bit (entry_at o.entries 0).flags complete_access_flag)))))).after
            e s p;
    }

upload_complete-Takes :
    (index subindex : ℕ) (o : Object) (nsub n : ℕ)
    → Takes (Claims n) (upload_complete index subindex o nsub n) (Done n)
unfolding upload_complete
upload_complete-Takes index subindex o nsub n =
    let bits = complete_size o nsub in
    let size = bits_to_bytes bits in
    let objd = entry_at o.entries 0 in
    record {
      after = λ e s p.
          (split-Takes (ltb 65535 size)
              (λ z. idle_claimed-Takes n index subindex size (ground arith))
              (λ _.
                branch-Takes
                  (ltb (e.sdo.prealloc_factor * e.mbx_size)
                    (u32 (size + e.sdo.prealloc_factor * Coe.header_size)))
                  (idle_claimed-Takes n index subindex Abort.ca_not_supported refl)
                  (bind-Takes
                    (upload_pre-Takes (claims-IsSteady n) index subindex objd.dataptr size
                      (set_bit objd.flags complete_access_flag))
                    (λ answer.
                      split-Takes (answer.0 == 0)
                        (λ _.
                          send_complete-Takes n index subindex o nsub (complete_dss bits)
                            (u32 (answer.1)))
                        (λ z. idle_claimed-Takes n index subindex (answer.0) z))))).after
            e s p;
    }

middle_segment-Takes : {P : Holds} (h : IsSteady P) (n : ℕ) → Takes P (middle_segment n) P
unfolding middle_segment set_length
middle_segment-Takes h n = steady-Takes h (λ e s. refl)

last_segment-Takes :
    {P : Holds} (h : IsSteady P) (n command size : ℕ) → Takes P (last_segment n command size) P
unfolding last_segment set_length set_command
last_segment-Takes h n command size = steady-Takes h (λ e s. refl)

finish_segment-Takes :
    (n offset index subindex now : ℕ)
    → Takes (Claims n) (finish_segment n offset index subindex now) (Done n)
unfolding finish_segment
finish_segment-Takes n offset index subindex now = record {
  after = λ e s p.
      (finish_upload-Takes n index subindex s.mbx.flags).after e _
        ((copy_out-Takes (claims-IsSteady n) n 9 (s.mbx.dataptr + offset) now).after e s p);
}

segment_reply-Takes :
    (n offset size command index subindex : ℕ)
    → Takes (Claims n) (segment_reply n offset size command index subindex) (Done n)
unfolding segment_reply
segment_reply-Takes n offset size command index subindex =
    let st = claims-IsSteady n in
    record {
      after = λ e s p.
          (bind-Takes
              (branch-Takes
                (ltb (mbx_data_size (init_coesdo n Coe.sdo_response command index subindex e s).1)
                  (u32 (size + Coe.segment_header_size)))
                (middle_segment-Takes st n) (last_segment-Takes st n command size))
              (finish_segment-Takes n offset index subindex)).after
            e _ ((init_coesdo-Takes st n Coe.sdo_response command index subindex).after e s p);
    }

upload_segment-Takes : (n : ℕ) → Takes (Claims n) (upload_segment n) (Done n)
unfolding upload_segment
upload_segment-Takes n = record {
  after = λ e s p.
      (segment_reply-Takes n s.mbx.fragsleft (sub32 s.mbx.frags s.mbx.fragsleft) (toggle_in s)
          (index_in s) (subindex_in s)).after
        e s p;
}

-- A refused request for complete access has an abort code.
abbrev pub IsRefusal : Target → Type 0
IsRefusal (refused code) = (code == 0) ≡ false
IsRefusal (target o nsub) = Unit {0}

to_target-IsRefusal : (l : Located) → IsRefusal (to_target l)
unfolding to_target
to_target-IsRefusal no_object = refl
to_target-IsRefusal no_subindex = refl
to_target-IsRefusal (found o nsub) = tt

pub target-IsRefusal :
    (index subindex : ℕ) (objects : List Object)
    → IsRefusal (complete_access_target index subindex objects)
unfolding complete_access_target
target-IsRefusal index subindex objects =
    if-elim IsRefusal (ltb 1 subindex) (λ _. refl)
      (λ _. to_target-IsRefusal (locate index subindex objects))

module _ {P Q D : Holds} (v : Service P Q D) where
  upload_entry-Takes : (index subindex : ℕ) (o : Entry) → Takes P (upload_entry index subindex o) D
  unfolding upload_entry
  upload_entry-Takes index subindex o = record {
    after = λ e s p.
        (branch-Takes (read_access o.flags s.al.status)
            (v.claim_done
              {f = λ n. if n == 0 then release_inbox else upload_reply index subindex o n}
              rest-Takes (λ n. given-Takes release_inbox n (upload_reply-Takes index subindex o n)))
            (idle-Takes v index subindex Abort.write_only refl)).after
          e s p;
  }

  upload_located-Takes :
      (index subindex : ℕ) (l : Located) → Takes P (upload_located index subindex l) D
  unfolding upload_located
  upload_located-Takes index subindex no_object =
      seq-Takes (abort-Takes v index subindex Abort.no_object) v.release
  upload_located-Takes index subindex no_subindex =
      seq-Takes (abort-Takes v index subindex Abort.no_subindex) v.release
  upload_located-Takes index subindex (found o nsub) =
      upload_entry-Takes index subindex (entry_at o.entries nsub)

  pub sdo_upload-Takes : Takes P sdo_upload D
  unfolding sdo_upload
  sdo_upload-Takes = record {
    after = λ e s p.
        (upload_located-Takes (index_in s) (subindex_in s)
            (locate (index_in s) (subindex_in s) s.objects)).after
          e s p;
  }

  upload_target-Takes :
      (index subindex : ℕ) (t : Target) → IsRefusal t → Takes P (upload_target index subindex t) D
  unfolding upload_target
  upload_target-Takes index subindex (refused code) z = idle-Takes v index subindex code z
  upload_target-Takes index subindex (target o nsub) z =
      v.claim_done
        {f = λ n.
          if n == 0
          then set_state_idle 0 index subindex 0
          else upload_complete index subindex o nsub n}
        (idle_any-Takes index subindex 0)
        (λ n.
          given-Takes (set_state_idle 0 index subindex 0) n
            (upload_complete-Takes index subindex o nsub n))

  pub complete_upload-Takes : Takes P sdo_upload_complete_access D
  unfolding sdo_upload_complete_access
  complete_upload-Takes = record {
    after = λ e s p.
        (upload_target-Takes (index_in s) (subindex_in s)
            (complete_access_target (index_in s) (subindex_in s) s.objects)
            (target-IsRefusal (index_in s) (subindex_in s) s.objects)).after
          e s p;
  }

  pub uploadsegment-Takes : Takes P sdo_uploadsegment D
  unfolding sdo_uploadsegment
  uploadsegment-Takes =
      v.claim_done {f = λ n. if n == 0 then release_inbox else upload_segment n} rest-Takes
        (λ n. given-Takes release_inbox n (upload_segment-Takes n))

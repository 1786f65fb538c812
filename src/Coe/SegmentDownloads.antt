-- ===== src/Coe/SegmentDownloads.antt =====
-- SDO_downloadsegment of soes/esc_coe.c and the mailbox layer.
use soes.Base.{ℕ, ◌+◌, refl, ◌==◌, if◌then◌else◌, ltb, has_bit, u32}
use soes.Base.Memory.{load8}
use soes.Codes.Coe
use soes.Codes.Abort
use soes.Slave.{Slave, set_mbx}
use soes.Slave.Hoare.{Takes, bind-Takes, seq-Takes, branch-Takes, split-Takes, weaken-Takes}
use soes.Coe.{
  release_inbox, set_state_idle, copy_in, finish_download, end_segments, call_last, download_all,
  after_segment, copy_segment, spread, finish_complete, expect_more, download_segment,
  sdo_downloadsegment, complete_access_flag, Located, no_object, no_subindex, found, locate,
  segment_size, toggle_in,
}
use soes.Coe.Claims.{
  Ready, Claims, claims-IsSteady, steady-Takes, claimed-Takes, Done, Rest, to-Rest, queue-Takes,
  rest-Takes, done-Takes,
}
use soes.Coe.Steps.{init_coesdo-Takes, download_post-Takes}
use soes.Coe.Replies.{idle_claimed-Takes, idle_any-Takes}

call_last-Takes :
    (n index subindex flags : ℕ) → Takes (Claims n) (call_last n index subindex flags) (Done n)
unfolding call_last
call_last-Takes n index subindex flags =
    bind-Takes (download_post-Takes (claims-IsSteady n) index subindex flags) (λ code.
      split-Takes (code == 0) (λ _. seq-Takes (queue-Takes n) (done-Takes n))
        (λ z. idle_claimed-Takes n index subindex code z))

pub finish_download-Takes : (n : ℕ) → Takes (Claims n) (finish_download n) (Done n)
unfolding finish_download end_segments
finish_download-Takes n = record {
  after = λ e s p.
      (seq-Takes (steady-Takes {m = end_segments} (claims-IsSteady n) (λ e' s'. refl))
          (call_last-Takes n s.mbx.index s.mbx.subindex s.mbx.flags)).after
        e s p;
}

-- A claimed buffer that is given up leaves the invariant.
given_up-Takes :
    (n index subindex code : ℕ) → Takes (Claims n) (set_state_idle 0 index subindex code) Rest
given_up-Takes n index subindex code =
    weaken-Takes (λ e s c. c.0) (λ e s v. v) (idle_any-Takes index subindex code)

spread-Takes : (n : ℕ) (l : Located) → Takes (Claims n) (spread n l) Rest
unfolding spread
spread-Takes n (found o nsub) = record {
  after = λ e s p.
      let t : Slave = record s {
        ram = download_all s.al.status s.mbx.frags (λ j. s.ram (e.sdo.mbxdata + j)) o nsub s.ram;
      } in
      (weaken-Takes (λ e' s' c. c) (to-Rest n) (finish_download-Takes n)).after e t
        (claims-IsSteady n e s t refl p);
}
spread-Takes n no_object = record {
  after = λ e s p. (given_up-Takes n s.mbx.index s.mbx.subindex Abort.no_object).after e s p;
}
spread-Takes n no_subindex = record {
  after = λ e s p. (given_up-Takes n s.mbx.index s.mbx.subindex Abort.no_object).after e s p;
}

after_segment-Takes : (n size : ℕ) → Takes (Claims n) (after_segment n size) Rest
unfolding after_segment finish_complete expect_more
after_segment-Takes n size = record {
  after = λ e s p.
      (branch-Takes (has_bit (load8 s.mem 8) 1)
          (branch-Takes (s.mbx.flags == complete_access_flag) finish
            (weaken-Takes (λ e' s' c. c) (to-Rest n) (finish_download-Takes n)))
          more).after
        e s p;
}
  where
    finish : Takes (Claims n) (finish_complete n size) Rest
    finish = record {
      after = λ e s p.
          (branch-Takes (ltb (u32 (s.mbx.fragsleft + size)) s.mbx.frags)
              (given_up-Takes n s.mbx.index s.mbx.subindex Abort.type_mismatch)
              (spread-Takes n (locate s.mbx.index s.mbx.subindex s.objects))).after
            e s p;
    }

    more : Takes (Claims n) (expect_more n size) Rest
    more = record {
      after = λ e s p.
          let t : Slave =
            set_mbx
              (λ b. record b { dataptr = b.dataptr + size; fragsleft = u32 (b.fragsleft + size) })
              s in
          (weaken-Takes (λ e' s' c. c) (to-Rest n) (seq-Takes (queue-Takes n) (done-Takes n))).after
            e t (claims-IsSteady n e s t refl p);
    }

copy_segment-Takes : (n size : ℕ) → Takes (Claims n) (copy_segment size) (Claims n)
unfolding copy_segment copy_in
copy_segment-Takes n size = steady-Takes {m = copy_segment size} (claims-IsSteady n) (λ e s. refl)

download_segment-Takes : (n : ℕ) → Takes (Claims n) (download_segment n) Rest
unfolding download_segment
download_segment-Takes n = record {
  after = λ e s p.
      (seq-Takes
          (init_coesdo-Takes (claims-IsSteady n) n Coe.sdo_response
            (Coe.command_download_seg_resp + toggle_in s) 0 0)
          (seq-Takes (copy_segment-Takes n (segment_size s))
            (after_segment-Takes n (segment_size s)))).after
        e s p;
}

pub downloadsegment-Takes : Takes Ready sdo_downloadsegment Rest
unfolding sdo_downloadsegment
downloadsegment-Takes =
    claimed-Takes {f = λ n. if n == 0 then release_inbox else download_segment n} rest-Takes (λ n.
      branch-Takes (n == 0) (weaken-Takes (λ e s c. c.0) (λ e s v. v) rest-Takes)
        (download_segment-Takes n))

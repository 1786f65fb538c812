-- ===== src/Coe/Downloads.antt =====
-- SDO_download and SDO_download_complete_access of soes/esc_coe.c and the mailbox layer.
use soes.Base.{ℕ, ◌+◌, ◌*◌, ◌%◌, refl, true, not, ◌==◌, if◌then◌else◌, arith, ltb, u32, set_bit}
use soes.Base.Memory.{bytes}
use soes.Codes.Coe
use soes.Codes.Abort
use soes.Pdo.{entry_at}
use soes.Slave.{Entry, Object, M, ◌>>=◌, ◌>>◌, skip}
use soes.Slave.Hoare.{
  Takes, Holds, bind-Takes, seq-Takes, branch-Takes, pure-Takes, weaken-Takes, when-Takes,
}
use soes.Coe.{
  release_inbox, sdo_abort, download_response, pad, hold, is_longer, expect_segments, whole_message,
  respond, finish_store, store, download_answered, qualify, download_sized, download_entry,
  download_located, sdo_download, complete_response, store_first, store_complete, download_complete,
  download_target, sdo_download_complete_access, gather, take_complete, download_all, queue_sdo,
  write_access, atype_ro, complete_access_flag, sdo_pending_code, mismatches, data_at, stated_size,
  Located, no_object, no_subindex, found, locate, Target, refused, target, complete_access_target,
  index_in, subindex_in, bits_to_bytes, complete_size, mbx_data_size,
}
use soes.Coe.Claims.{
  Ready, IsSteady, valid-IsSteady, replied-IsSteady, steady-Takes, modify-Takes, ready-Service,
  claimed-Takes, Rest, to-Rest, rest-Takes, done-Takes,
}
use soes.Coe.Steps.{copy_in-Takes, download_pre-Takes, download_post-Takes}
use soes.Coe.Replies.{
  given-Takes, queue_sdo-Takes, abort-Takes, abort_replied-Takes, idle_any-Takes,
}

abort_new-Takes : (index subindex code : ℕ) → Takes Ready (sdo_abort 0 index subindex code) Ready
abort_new-Takes = abort-Takes ready-Service

hold-Takes : (index subindex size : ℕ) → Takes Ready (hold index subindex size) Ready
unfolding hold
hold-Takes index subindex size = record {
  after = λ e s p.
      (branch-Takes (is_longer size s) (abort_new-Takes index subindex Abort.general_error) (
          modify-Takes valid-IsSteady
            (λ t. record t {
              sdo_held = record { active = true; index = index; subindex = subindex };
            })
            (λ t. refl))).after
        e s p;
}

-- The reply has been queued in buffer `n`, or there was no buffer.
finish_store-Takes :
    {P : Holds} (h : IsSteady P) (index subindex flags n : ℕ)
    → ((code : ℕ) → Takes P (sdo_abort n index subindex code) P)
    → Takes P (finish_store index subindex flags n) P
unfolding finish_store
finish_store-Takes h index subindex flags n f = record {
  after = λ e s p.
      (bind-Takes
          (branch-Takes (s.mbx.segmented == 0) (download_post-Takes h index subindex flags)
            (pure-Takes {a = 0}))
          (λ code. when-Takes (not (code == 0)) (f code))).after
        e s p;
}

answered-Takes :
    (index subindex flags : ℕ)
    → Takes Ready (respond index subindex >>= finish_store index subindex flags) Ready
unfolding respond download_response
answered-Takes index subindex flags =
    claimed-Takes
      {f = λ n.
        (if n == 0 then skip else download_response index subindex n)
        >> finish_store index subindex flags n}
      (finish_store-Takes valid-IsSteady index subindex flags 0 (abort_new-Takes index subindex))
      (λ n.
        seq-Takes
          (given-Takes skip n
            (queue_sdo-Takes Coe.sdo_response Coe.command_download_response index subindex 0 n))
          (weaken-Takes (λ e s r. r) (λ e s r. r.0)
            (finish_store-Takes (replied-IsSteady n) index subindex flags n
              (abort_replied-Takes n index subindex))))

store-Takes :
    (index subindex : ℕ) (o : Entry) (size : ℕ) → Takes Ready (store index subindex o size) Ready
unfolding store expect_segments whole_message
store-Takes index subindex o size = record {
  after = λ e s p.
      (bind-Takes
          (branch-Takes (is_longer size s)
            (steady-Takes {m = expect_segments index subindex o} valid-IsSteady (λ e' s'. refl))
            (steady-Takes {m = whole_message size} valid-IsSteady (λ e' s'. refl)))
          (λ now.
            seq-Takes (copy_in-Takes valid-IsSteady o.dataptr (data_at s) now)
              (answered-Takes index subindex o.flags))).after
        e s p;
}

download_answered-Takes :
    (index subindex : ℕ) (o : Entry) (size code : ℕ)
    → Takes Ready (download_answered index subindex o size code) Ready
unfolding download_answered
download_answered-Takes index subindex o size code =
    branch-Takes (code == sdo_pending_code) (hold-Takes index subindex size) (
      branch-Takes (code == 0) (store-Takes index subindex o size)
        (abort_new-Takes index subindex code))

pad-Takes : (o : Entry) (size : ℕ) → Takes Ready (pad o size) Ready
unfolding pad
pad-Takes o size = steady-Takes valid-IsSteady (λ e s. ground arith)

qualify-Takes :
    (index subindex : ℕ) (o : Entry) (size : ℕ) → Takes Ready (qualify index subindex o size) Rest
unfolding qualify
qualify-Takes index subindex o size = record {
  after = λ e s p.
      (bind-Takes
          (download_pre-Takes valid-IsSteady index subindex (bytes s.mem (data_at s) size) o.flags)
          (λ code. seq-Takes (download_answered-Takes index subindex o size code) rest-Takes)).after
        e s p;
}

download_sized-Takes :
    (index subindex : ℕ) (o : Entry) (size : ℕ)
    → Takes Ready (download_sized index subindex o size) Rest
unfolding download_sized
download_sized-Takes index subindex o size =
    branch-Takes (mismatches o size) (idle_any-Takes index subindex Abort.type_mismatch)
      (seq-Takes (pad-Takes o size) (qualify-Takes index subindex o size))

download_entry-Takes :
    (index subindex : ℕ) (o : Entry) → Takes Ready (download_entry index subindex o) Rest
unfolding download_entry
download_entry-Takes index subindex o = record {
  after = λ e s p.
      (branch-Takes (write_access o.flags s.al.status)
          (download_sized-Takes index subindex o (stated_size s))
          (seq-Takes
            (abort_new-Takes index subindex
              (if o.flags % 64 == atype_ro then Abort.read_only else Abort.not_in_this_state))
            rest-Takes)).after
        e s p;
}

download_located-Takes :
    (index subindex : ℕ) (l : Located) → Takes Ready (download_located index subindex l) Rest
unfolding download_located
download_located-Takes index subindex no_object =
    seq-Takes (abort_new-Takes index subindex Abort.no_object) rest-Takes
download_located-Takes index subindex no_subindex =
    seq-Takes (abort_new-Takes index subindex Abort.no_subindex) rest-Takes
download_located-Takes index subindex (found o nsub) =
    download_entry-Takes index subindex (entry_at o.entries nsub)

pub sdo_download-Takes : Takes Ready sdo_download Rest
unfolding sdo_download
sdo_download-Takes = record {
  after = λ e s p.
      (download_located-Takes (index_in s) (subindex_in s)
          (locate (index_in s) (subindex_in s) s.objects)).after
        e s p;
}

complete_response-Takes : (index subindex : ℕ) → Takes Ready (complete_response index subindex) Rest
unfolding complete_response
complete_response-Takes index subindex =
    let reply : ℕ → M (Unit {0}) =
      queue_sdo Coe.sdo_response (Coe.command_download_response + 16) index subindex 0 in
    claimed-Takes {f = λ n. (if n == 0 then skip else reply n) >> release_inbox} rest-Takes (λ n.
      seq-Takes
        (given-Takes skip n (
          queue_sdo-Takes Coe.sdo_response (Coe.command_download_response + 16) index subindex 0 n))
        (weaken-Takes (λ e s r. r) (to-Rest n) (done-Takes n)))

store_first-Takes : (index subindex size : ℕ) → Takes Ready (store_first index subindex size) Rest
unfolding store_first gather
store_first-Takes index subindex size = record {
  after = λ e s p.
      (branch-Takes
          (ltb (e.sdo.prealloc_factor * e.mbx_size)
            (u32 (size + e.sdo.prealloc_factor * Coe.header_size)))
          (idle_any-Takes index subindex Abort.ca_not_supported)
          (seq-Takes (steady-Takes {m = gather index subindex size} valid-IsSteady (λ e' s'. refl))
            (complete_response-Takes index subindex))).after
        e s p;
}

store_complete-Takes :
    (index subindex : ℕ) (o : Object) (nsub size : ℕ)
    → Takes Ready (store_complete index subindex o nsub size) Rest
unfolding store_complete
store_complete-Takes index subindex o nsub size = record {
  after = λ e s p.
      (bind-Takes
          (download_post-Takes valid-IsSteady index subindex
            (set_bit (entry_at o.entries 0).flags complete_access_flag))
          (λ code.
            branch-Takes (code == 0) (complete_response-Takes index subindex)
              (idle_any-Takes index subindex code))).after
        e _
        (valid-IsSteady e s
          (record s {
            ram = download_all s.al.status size (λ j. s.mem (data_at s + j)) o nsub s.ram;
            mbx = record (s.mbx) { segmented = 0 };
          })
          refl p);
}

download_complete-Takes :
    (index subindex : ℕ) (o : Object) (nsub size : ℕ)
    → Takes Ready (download_complete index subindex o nsub size) Rest
unfolding download_complete take_complete
download_complete-Takes index subindex o nsub size =
    let whole = bits_to_bytes (complete_size o nsub) in
    record {
      after = λ e s p.
          (branch-Takes (ltb 65535 whole) (idle_any-Takes index subindex whole) (
              branch-Takes (ltb whole size) (idle_any-Takes index subindex Abort.type_mismatch) (
                bind-Takes
                  (download_pre-Takes valid-IsSteady index subindex (bytes s.mem (data_at s) whole)
                    (set_bit (entry_at o.entries 0).flags complete_access_flag))
                  (take_complete-Takes index subindex o nsub size)))).after
            e s p;
    }
  where
    take_complete-Takes :
        (index subindex : ℕ) (o : Object) (nsub size code : ℕ)
        → Takes Ready (take_complete index subindex o nsub size code) Rest
    take_complete-Takes index subindex o nsub size code = record {
      after = λ e s p.
          (branch-Takes (not (code == 0))
              (idle_any-Takes index subindex
                (if code == sdo_pending_code then Abort.general_error else code))
              (branch-Takes (ltb (mbx_data_size s) (u32 (size + Coe.header_size)))
                (store_first-Takes index subindex size)
                (store_complete-Takes index subindex o nsub size))).after
            e s p;
    }

pub complete_download-Takes : Takes Ready sdo_download_complete_access Rest
unfolding sdo_download_complete_access download_target
complete_download-Takes = record {
  after = λ e s p.
      (download_target-Takes (index_in s) (subindex_in s)
          (complete_access_target (index_in s) (subindex_in s) s.objects) (stated_size s)).after
        e s p;
}
  where
    download_target-Takes :
        (index subindex : ℕ) (t : Target) (size : ℕ)
        → Takes Ready (download_target index subindex t size) Rest
    download_target-Takes index subindex (refused code) size = idle_any-Takes index subindex code
    download_target-Takes index subindex (target o nsub) size =
        download_complete-Takes index subindex o nsub size

-- ===== src/Coe/Listing.antt =====
-- The SDO information services of soes/esc_coe.c and the mailbox layer.
use soes.Base.{
  ℕ, ◌+◌, ◌*◌, ◌/◌, refl, Option, none, some, List, length, ◌==◌, if◌then◌else◌, ltb, u16, sub32,
}
use soes.Base.Memory.{Mem, load8, load16}
use soes.Codes.Abort
use soes.Pdo.{entry_at, object_at, findobject}
use soes.Mailbox.{claimbuffer}
use soes.Slave.{Object, ◌>>=◌, ◌>>◌, skip, set_mbx}
use soes.Slave.Hoare.{Takes, Holds, seq-Takes, branch-Takes, skip-Takes}
use soes.Coe.{
  release_inbox, queue, fill, infoerror_reply, sdo_infoerror, count_reply, list_count, list_reply,
  list_first, continue_later, serve_list, sdo_getodlist, list_part, list_start, next_fragment,
  list_next, sdo_getodlistcont, od_reply, getod_found, getod_at, sdo_getod, ed_reply, geted_found,
  geted_located, sdo_geted, odlist_size, Located, no_object, no_subindex, found, locate,
  mbx_data_size,
}
use soes.Coe.Claims.{
  Claims, Replied, claims-IsSteady, steady-Takes, modify-Takes, Service, queue-Takes,
  release_replied-Takes, release_claimed-Takes,
}
use soes.Coe.Steps.{fill-Takes}
use soes.Coe.Replies.{given-Takes}

-- A reply that is filled and queued, and the inbox released.
filled-Takes :
    (n : ℕ) (f : ℕ → Mem → Mem)
    → Takes (Claims n) (fill n f >> (queue n >> release_inbox)) (Replied n)
filled-Takes n f =
    seq-Takes (fill-Takes (claims-IsSteady n) n f)
      (seq-Takes (queue-Takes n) (release_replied-Takes n))

list_count-Takes : (n entries frags : ℕ) → Takes (Claims n) (list_count n entries frags) (Replied n)
unfolding list_count
list_count-Takes n entries frags =
    seq-Takes (fill-Takes (claims-IsSteady n) n (count_reply entries)) (
      seq-Takes
        (modify-Takes (claims-IsSteady n)
          (set_mbx (λ b. record b { frags = frags; fragsleft = sub32 frags 1 })) (λ s. refl))
        (seq-Takes (release_claimed-Takes n) (queue-Takes n)))

list_first-Takes : (n entries frags : ℕ) → Takes (Claims n) (list_first n entries frags) (Replied n)
unfolding list_first continue_later
list_first-Takes n entries frags =
    let st = claims-IsSteady n in
    let more = ltb 1 frags in
    record {
      after = λ e s p.
          (seq-Takes
              (modify-Takes st
                (set_mbx (λ b. record b { frags = frags; fragsleft = sub32 frags 1 })) (λ t. refl))
              (seq-Takes
                (fill-Takes st n (
                  list_reply s.objects (if more then 1 else 0) (sub32 frags 1)
                    (if more then odlist_size s / 2 else entries)))
                (seq-Takes
                  (branch-Takes more (steady-Takes {m = continue_later} st (λ e' s'. refl))
                    (release_claimed-Takes n))
                  (queue-Takes n)))).after
            e s p;
    }

list_next-Takes : (n : ℕ) → Takes (Claims n) (list_next n) (Replied n)
unfolding list_next next_fragment
list_next-Takes n =
    let st = claims-IsSteady n in
    record {
      after = λ e s p.
          (seq-Takes (branch-Takes (ltb 1 s.mbx.fragsleft) skip-Takes (release_claimed-Takes n)) (
              seq-Takes (steady-Takes {m = next_fragment} st (λ e' s'. refl)) (
                seq-Takes
                  (fill-Takes st n (
                    list_part s.objects (if ltb 1 s.mbx.fragsleft then 1 else 0)
                      (sub32 s.mbx.fragsleft 1) (list_start s)
                      (if ltb 1 s.mbx.fragsleft
                        then u16 (list_start s + odlist_size s / 2)
                        else s.mbx.entries)))
                  (queue-Takes n)))).after
            e s p;
    }

module _ {P Q D : Holds} (v : Service P Q D) where
  filled :
      (f : ℕ → Mem → Mem)
      → Takes P
          (claimbuffer >>= λ n. if n == 0 then skip else (fill n f >> (queue n >> release_inbox)))
          Q
  filled f =
      v.claim {f = λ n. if n == 0 then skip else (fill n f >> (queue n >> release_inbox))}
        skip-Takes (λ n. given-Takes skip n (filled-Takes n f))

  infoerror-Takes : (code : ℕ) → Takes P (sdo_infoerror code) Q
  unfolding sdo_infoerror
  infoerror-Takes code = filled (infoerror_reply code)

  serve_list-Takes :
      (asked entries frags : ℕ) → Takes P (claimbuffer >>= serve_list asked entries frags) Q
  unfolding serve_list
  serve_list-Takes asked entries frags =
      v.claim {f = serve_list asked entries frags} skip-Takes (λ n. given-Takes skip n (
        branch-Takes (asked == 0) (list_count-Takes n entries frags)
          (list_first-Takes n entries frags)))

  pub getodlist-Takes : Takes P sdo_getodlist Q
  unfolding sdo_getodlist odlist_size
  getodlist-Takes = record {
    after = λ e s p.
        let entries = u16 (length s.objects) in
        (branch-Takes (ltb 1 (load16 s.mem 12)) (infoerror-Takes Abort.unsupported) (
            serve_list-Takes (load16 s.mem 12) entries
              (sub32 (entries * 2 + odlist_size s) 1 / odlist_size s))).after
          e _ (v.steady e s (set_mbx (λ b. record b { entries = entries }) s) refl p);
  }

  pub getodlistcont-Takes : Takes P sdo_getodlistcont Q
  unfolding sdo_getodlistcont
  getodlistcont-Takes =
      v.claim {f = λ n. if n == 0 then skip else list_next n} skip-Takes
        (λ n. given-Takes skip n (list_next-Takes n))

  getod_found-Takes : (index : ℕ) (o : Object) → Takes P (getod_found index o) Q
  unfolding getod_found
  getod_found-Takes index o = record {
    after = λ e s p. (filled (od_reply index (sub32 (mbx_data_size s) 12) o)).after e s p;
  }

  getod_at-Takes :
      (index : ℕ) (objects : List Object) (nidx : Option ℕ)
      → Takes P (getod_at index objects nidx) Q
  unfolding getod_at
  getod_at-Takes index objects none = infoerror-Takes Abort.no_object
  getod_at-Takes index objects (some nidx) = getod_found-Takes index (object_at objects nidx)

  pub getod-Takes : Takes P sdo_getod Q
  unfolding sdo_getod
  getod-Takes = record {
    after = λ e s p.
        (getod_at-Takes (load16 s.mem 12) s.objects (findobject (load16 s.mem 12) s.objects)).after
          e s p;
  }

  geted_located-Takes :
      (index subindex : ℕ) (l : Located) → Takes P (geted_located index subindex l) Q
  unfolding geted_located geted_found
  geted_located-Takes index subindex no_object = infoerror-Takes Abort.no_object
  geted_located-Takes index subindex no_subindex = infoerror-Takes Abort.no_subindex
  geted_located-Takes index subindex (found o nsub) = record {
    after = λ e s p.
        (filled
            (ed_reply index subindex (sub32 (mbx_data_size s) 16) (entry_at o.entries nsub))).after
          e s p;
  }

  pub geted-Takes : Takes P sdo_geted Q
  unfolding sdo_geted
  geted-Takes = record {
    after = λ e s p.
        (geted_located-Takes (load16 s.mem 12) (load8 s.mem 14)
            (locate (load16 s.mem 12) (load8 s.mem 14) s.objects)).after
          e s p;
  }

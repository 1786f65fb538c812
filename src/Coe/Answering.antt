-- ===== src/Coe/Answering.antt =====
-- ESC_coeprocess of soes/esc_coe.c: which messages it answers and which it releases from the inbox.
use soes.Base.{
  ℕ, ◌<◌, ◌≤◌, ◌≡◌, ◌≢◌, ◌⊎◌, inl, inr, refl, sym, true, false, if-elim, eq-of-==, ◌==◌, arith,
}
use soes.Base.Memory.{load16, load_low}
use soes.Codes.MbxType
use soes.Codes.Coe
use mathlib.Core.Path.{subst}
use soes.Slave.{M, Env, Slave, outreq, set_mbx}
use soes.Slave.Hoare.{Takes, branch-Takes, weaken-Takes}
use soes.Mailbox.{is_inclaim, find_idle}
use soes.Mailbox.Claim.{IsValidAt}
use soes.Coe.{
  serve, Request, upload_req, complete_upload_req, upload_segment_req, download_req,
  complete_download_req, download_segment_req, unknown_req, request_in, serve_request,
  process_taken, take_coe, continue_list, dispatch, coeprocess, index_in, service_in, length_in,
}
use soes.Coe.Claims.{Replied, Available, Done, available-IsSteady, available-Service}
use soes.Coe.Uploads.{sdo_upload-Takes, complete_upload-Takes, uploadsegment-Takes}
use soes.Coe.Serving.{not_recognised-Takes, serve_information-Takes, in_work-Takes}

-- A message for CoE waits in the inbox.
pub record Waits (s : Slave) : Type 0 where
  pub run : s.mbx.run ≡ true
  pub xoe : s.mbx.xoe ≡ 0
  pub inbox : is_inclaim (s.control 0) ≡ true
  pub kind : load_low s.mem 5 ≡ MbxType.canopen
  pub long : Coe.minimum_length ≤ length_in s

-- Neither the message nor the transfer under way names the object 0xFFFF. That is the index of the end
-- mark of the list of objects, which SDO_findobject finds, and whose NULL `objdesc` the source then reads.
pub record NamesNoEnd (s : Slave) : Type 0 where
  pub requested : service_in s ≡ Coe.sdo_request → index_in s ≢ 0xffff
  pub described : service_in s ≡ Coe.sdo_information → load16 s.mem 12 ≢ 0xffff
  pub transferred : s.mbx.index ≢ 0xffff

abbrev pub taken : Slave → Slave
taken = set_mbx (λ b. record b { xoe = MbxType.canopen })

pub coeprocess_waiting :
    (e : Env) (s : Slave) → Waits s → coeprocess e s ≡ process_taken e (taken s)
unfolding coeprocess take_coe continue_list dispatch
coeprocess_waiting e s w = ground (arith, w.run, w.xoe, w.inbox, w.kind, w.long)

-- The messages whose reply does not depend on the application: all but the downloads, and these as
-- well while the reply to another is held back.
abbrev pub IsUpload : Request → Type 0
IsUpload upload_req = Unit {0}
IsUpload complete_upload_req = Unit {0}
IsUpload upload_segment_req = Unit {0}
IsUpload _ = ⊥

abbrev pub IsAnswered : Slave → Type 0
IsAnswered s =
    (service_in s ≢ Coe.sdo_request) ⊎ ((s.sdo_held.active ≡ true) ⊎ IsUpload (request_in s))

answer-Takes : (n : ℕ) (r : Request) → IsUpload r → Takes (Available n) (serve r) (Done n)
unfolding serve
answer-Takes n upload_req u = sdo_upload-Takes (available-Service n)
answer-Takes n complete_upload_req u = complete_upload-Takes (available-Service n)
answer-Takes n upload_segment_req u = uploadsegment-Takes (available-Service n)
answer-Takes n download_req u = elim u [ ]
answer-Takes n complete_download_req u = elim u [ ]
answer-Takes n download_segment_req u = elim u [ ]
answer-Takes n unknown_req u = elim u [ ]

answered-Replied :
    (n : ℕ) (e : Env) (s : Slave)
    → Available n e s
    → IsAnswered s
    → Replied n e (process_taken e s).1
unfolding process_taken serve_request
answered-Replied n e s p c =
    let v = available-Service n in
    if-elim (λ (m : M (Unit {0})). Replied n e (m e s).1) (service_in s == Coe.sdo_request)
      (λ q.
        if-elim (λ (m : M (Unit {0})). Replied n e (m e s).1) s.sdo_held.active
          (λ _. ((in_work-Takes v).after e s p).0)
          (λ held. ((answer-Takes n (request_in s) (upload q held c)).after e s p).0))
      (λ _.
        (branch-Takes (service_in s == Coe.sdo_information)
            (serve_information-Takes v (λ e' s' d. d.0))
            (weaken-Takes (λ e' s' q. q) (λ e' s' d. d.0) (not_recognised-Takes v))).after
          e s p)
  where
    upload :
        (service_in s == Coe.sdo_request) ≡ true
        → s.sdo_held.active ≡ false
        → IsAnswered s
        → IsUpload (request_in s)
    upload q held (inl other) = absurd (other (eq-of-== _ _ q))
    upload q held (inr (inl h)) = absurd (ground arith)
    upload q held (inr (inr u)) = u

-- While some buffer other than the inbox is idle, one call of ESC_coeprocess answers a message for CoE that
-- waits in the inbox, where it is no download, or the reply to another download is held back, and where
-- neither it nor the transfer under way names the object 0xFFFF: the reply is queued in the buffer that
-- ESC_claimbuffer gives, and the mailbox layer's invariant is kept.
pub coeprocess_answers :
    (e : Env) (s : Slave)
    → IsValidAt e s
    → Waits s
    → NamesNoEnd s
    → IsAnswered s
    → 0 < find_idle e s
    → let t = (coeprocess e s).1 in IsValidAt e t × (t.control (find_idle e s) ≡ outreq)
unfolding request_in
coeprocess_answers e s v w names c h =
    let r =
      answered-Replied (find_idle e s) e (taken s)
        (available-IsSteady (find_idle e s) e s (taken s) refl (v, h, refl)) c in
    subst (λ (x : Unit {0} × Slave). IsValidAt e (x.1) × (x.1.control (find_idle e s) ≡ outreq))
      (sym (coeprocess_waiting e s w)) (r.0, r.3)

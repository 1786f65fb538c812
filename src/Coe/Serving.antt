-- ===== src/Coe/Serving.antt =====
-- ESC_coeprocess of soes/esc_coe.c and the mailbox layer's invariant.
use soes.Base.{ℕ, ◌+◌, ◌*◌, ◌≢◌, refl, ◌&&◌, ◌==◌, if◌then◌else◌, arith, ltb}
use soes.Base.Memory.{load8, load16, load_low}
use soes.Codes.MbxErr
use soes.Codes.MbxType
use soes.Codes.Abort
use soes.Codes.Coe
use soes.Slave.{Env, Slave, skip, set_mbx, set_mem}
use soes.Slave.Hoare.{Takes, Holds, seq-Takes, branch-Takes, when-Takes, skip-Takes, weaken-Takes}
use soes.Mailbox.{is_inclaim, mbx_error, queue_error, error_reply}
use soes.Mailbox.Claim.{IsValidAt}
use soes.Coe.{
  serve, Request, upload_req, complete_upload_req, upload_segment_req, download_req,
  complete_download_req, download_segment_req, unknown_req, request_in, in_work, not_recognised,
  serve_information, serve_request, process_taken, take_coe, continue_list, dispatch, queue,
  coeprocess, service_in, opcode_in, length_in,
}
use soes.Coe.Claims.{
  Ready, Claims, Replied, Rest, valid-IsSteady, claims-IsSteady, modify-Takes, Service,
  ready-Service, queue-Takes,
}
use soes.Coe.Replies.{given-Takes, abort-Takes}
use soes.Coe.Uploads.{sdo_upload-Takes, complete_upload-Takes, uploadsegment-Takes}
use soes.Coe.Downloads.{sdo_download-Takes, complete_download-Takes}
use soes.Coe.SegmentDownloads.{downloadsegment-Takes}
use soes.Coe.Listing.{getodlist-Takes, getodlistcont-Takes, getod-Takes, geted-Takes}

queue_error-Takes : (error n : ℕ) → Takes (Claims n) (queue_error error n) (Replied n)
unfolding queue_error queue
queue_error-Takes error n = record {
  after = λ e s c.
      let t = set_mem (error_reply (n * s.mbx.size) error) s in
      (queue-Takes n).after e t (claims-IsSteady n e s t refl c);
}

module _ {P Q D : Holds} (v : Service P Q D) where
  mbx_error-Takes : (error : ℕ) → Takes P (mbx_error error) Q
  unfolding mbx_error
  mbx_error-Takes error =
      v.claim {f = λ n. if n == 0 then skip else queue_error error n} skip-Takes
        (λ n. given-Takes skip n (queue_error-Takes error n))

  pub in_work-Takes : Takes P in_work D
  unfolding in_work
  in_work-Takes = seq-Takes (mbx_error-Takes MbxErr.service_in_work) v.release

  pub not_recognised-Takes : Takes P not_recognised D
  unfolding not_recognised
  not_recognised-Takes = record {
    after = λ e s p.
        (seq-Takes
            (branch-Takes (service_in s == 0) (mbx_error-Takes MbxErr.invalid_header)
              (abort-Takes v (load16 s.mem 9) (load8 s.mem 11) Abort.unsupported))
            v.release).after
          e s p;
  }

  pub serve_information-Takes :
      ((e : Env) (s : Slave) → D e s → Q e s) → Takes P serve_information Q
  unfolding serve_information
  serve_information-Takes g = record {
    after = λ e s p.
        (branch-Takes (opcode_in s == 1) (getodlist-Takes v) (
            branch-Takes (opcode_in s == 3) (getod-Takes v) (
              branch-Takes (opcode_in s == 5) (geted-Takes v)
                (weaken-Takes (λ e' s' q. q) g not_recognised-Takes)))).after
          e s p;
  }

pub serve_known-Takes : (r : Request) → r ≢ unknown_req → Takes Ready (serve r) Rest
unfolding serve
serve_known-Takes upload_req h = sdo_upload-Takes ready-Service
serve_known-Takes complete_upload_req h = complete_upload-Takes ready-Service
serve_known-Takes upload_segment_req h = uploadsegment-Takes ready-Service
serve_known-Takes download_req h = sdo_download-Takes
serve_known-Takes complete_download_req h = complete_download-Takes
serve_known-Takes download_segment_req h = downloadsegment-Takes
serve_known-Takes unknown_req h = absurd (h refl)

to-Ready : (e : Env) (s : Slave) → Rest e s → Ready e s
to-Ready e s r = r.0

serve-Takes : (r : Request) → Takes Ready (serve r) Ready
unfolding serve
serve-Takes unknown_req = skip-Takes
serve-Takes upload_req =
    weaken-Takes (λ e s v. v) to-Ready (serve_known-Takes upload_req (λ q. ground arith))
serve-Takes complete_upload_req =
    weaken-Takes (λ e s v. v) to-Ready (serve_known-Takes complete_upload_req (λ q. ground arith))
serve-Takes upload_segment_req =
    weaken-Takes (λ e s v. v) to-Ready (serve_known-Takes upload_segment_req (λ q. ground arith))
serve-Takes download_req =
    weaken-Takes (λ e s v. v) to-Ready (serve_known-Takes download_req (λ q. ground arith))
serve-Takes complete_download_req =
    weaken-Takes (λ e s v. v) to-Ready (serve_known-Takes complete_download_req (λ q. ground arith))
serve-Takes download_segment_req =
    weaken-Takes (λ e s v. v) to-Ready (serve_known-Takes download_segment_req (λ q. ground arith))

serve_request-Takes : Takes Ready serve_request Ready
unfolding serve_request
serve_request-Takes = record {
  after = λ e s p.
      (branch-Takes s.sdo_held.active
          (weaken-Takes (λ e' s' v. v) to-Ready (in_work-Takes ready-Service))
          (serve-Takes (request_in s))).after
        e s p;
}

process_taken-Takes : Takes Ready process_taken Ready
unfolding process_taken
process_taken-Takes = record {
  after = λ e s p.
      (branch-Takes (service_in s == Coe.sdo_request) serve_request-Takes (
          branch-Takes (service_in s == Coe.sdo_information)
            (serve_information-Takes ready-Service to-Ready)
            (weaken-Takes (λ e' s' v. v) to-Ready (not_recognised-Takes ready-Service)))).after
        e s p;
}

take_coe-Takes : Takes Ready take_coe Ready
unfolding take_coe
take_coe-Takes = record {
  after = λ e s p.
      (when-Takes
          ((s.mbx.xoe == 0) && is_inclaim (s.control 0) && (load_low s.mem 5 == MbxType.canopen))
          (branch-Takes (ltb (length_in s) Coe.minimum_length)
            (mbx_error-Takes ready-Service MbxErr.invalid_size)
            (modify-Takes valid-IsSteady (set_mbx (λ b. record b { xoe = MbxType.canopen }))
              (λ t. refl)))).after
        e s p;
}

continue_list-Takes : Takes Ready continue_list Ready
unfolding continue_list
continue_list-Takes = record {
  after = λ e s p.
      (when-Takes ((s.mbx.xoe == MbxType.canopen + MbxType.odl) && (s.mbx.posted == 0))
          (getodlistcont-Takes ready-Service)).after
        e s p;
}

dispatch-Takes : Takes Ready dispatch Ready
unfolding dispatch
dispatch-Takes = record {
  after = λ e s p. (when-Takes (s.mbx.xoe == MbxType.canopen) process_taken-Takes).after e s p;
}

-- ESC_coeprocess keeps the invariant of the mailbox layer, whatever the message, the dictionary, the
-- object hooks and the state of a segmented transfer are: buffers that wait to be sent are counted in
-- txcue, at most one is posted and one kept, and the inbox is idle or claimed.
pub coeprocess-IsValid : (e : Env) (s : Slave) → IsValidAt e s → IsValidAt e (coeprocess e s).1
unfolding coeprocess
coeprocess-IsValid e s v =
    (branch-Takes s.mbx.run
        (seq-Takes take_coe-Takes (seq-Takes continue_list-Takes dispatch-Takes)) skip-Takes).after
      e s v

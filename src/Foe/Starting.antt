-- ===== src/Foe/Starting.antt =====
-- The start of a transfer: FOE_write of soes/esc_foe.c.
use soes.Base.{ℕ, ◌-◌, ◌≤◌, ◌<◌, ◌≡◌, refl, ap, ◌∙◌, List, [], ◌==◌, if◌then◌else◌, if-elim, arith}
use soes.Slave.{idle, ready, set_foe, wait_for_data, Flush, Env, Slave, M, ◌>>=◌}
use soes.Foe.Receiver.{CfgIsValid, open_request-Receiving}
use soes.Foe.File.{Request, wrq, init}
use soes.Foe.Reply.{abort, send_ack}
use soes.Foe.Handlers.{set_state, is_ready, open_request, foe_write}
use soes.Foe.Stream.{Receiving, Receiving-update}
use soes.Foe.Frames.{send_ack_foe, send_ack_available}
use soes.Foe.Progress.{GoesOn}

open_request_control :
    (op : Request) (e : Env) (s : Slave) → (open_request op e s).1.control ≡ s.control
unfolding open_request
open_request_control op e s = refl

opened-GoesOn :
    (base : List Flush) (file : ℕ) (e : Env) (s : Slave)
    → (send_ack e s).0 ≡ 0
    → Receiving e.foe base file [] [] s.foe
    → s.foe.packet ≡ 0
    → GoesOn e.foe base file [] 1
        ((send_ack >>= λ sent. if sent == 0 then set_state wait_for_data else abort sent) e s).1.foe
opened-GoesOn base file e s sent r k =
    if-elim (λ (m : M (Unit {0})). GoesOn e.foe base file [] 1 (m e (send_ack e s).1).1.foe)
      ((send_ack e s).0 == 0)
      (λ _.
        let q : (send_ack e s).1.foe ≡ record (s.foe) { packet = 1 } =
          ground (arith, send_ack_foe e s) in
        record {
          waits = refl;
          number = ap (λ f. f.packet) q;
          handed = [];
          stream = rw q (
              Receiving-update e.foe base file s.foe.fprevposition 1 s.foe.total_size wait_for_data
                r);
        })
      (λ p. absurd (ground (arith, sent)))

-- With a buffer of 1 to 65535 bytes and files below 4 GiB, a write request that FOE_fopen accepts when
-- FoE is ready starts a transfer, if some buffer is idle for the acknowledgement: nothing has been received
-- for the file yet, and packet 1 is awaited.
pub foe_write-GoesOn :
    (e : Env) (s : Slave) (k : ℕ)
    → CfgIsValid e.foe
    → s.foe.state ≡ ready
    → (open_request wrq e (set_foe init s)).0 ≡ 0
    → 0 < k
    → k ≤ e.buffers - 1
    → s.control k ≡ idle
    → (file : ℕ) × GoesOn e.foe s.foe.flushes file [] 1 (foe_write e s).1.foe
unfolding foe_write init
foe_write-GoesOn e s k v w accepted p h i =
    let t = set_foe init s in
    let u = (open_request wrq e t).1 in
    let (file, r, same) = open_request-Receiving e t v refl accepted in
    (
      file,
      if-elim (λ (m : M (Unit {0})). GoesOn e.foe s.foe.flushes file [] 1 (m e s).1.foe)
          (is_ready s.foe.state)
          (λ _.
            if-elim (λ (m : M (Unit {0})). GoesOn e.foe s.foe.flushes file [] 1 (m e u).1.foe)
              ((open_request wrq e t).0 == 0)
              (λ _.
                opened-GoesOn s.foe.flushes file e u
                  (send_ack_available e u k p h (ap (λ c. c k) (open_request_control wrq e t) ∙ i))
                  r same)
              (λ z. absurd (ground (arith, accepted))))
          (λ z. absurd (ground (arith, w))),
    )

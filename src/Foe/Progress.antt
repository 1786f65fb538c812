-- ===== src/Foe/Progress.antt =====
-- The transfer of a file goes on: FOE_fwrite, FOE_send_ack and FOE_data of soes/esc_foe.c.
use soes.Base.{
  ℕ, zero, suc, ◌+◌, ◌-◌, ◌≤◌, ◌<◌, ◌≡◌, ◌≢◌, refl, ap, ◌∙◌, false, not, List, ◌++◌, ◌==◌, ltb,
  if-elim, u32, arith,
}
use soes.Base.Memory.{Mem, load8, load32}
use soes.Slave.{idle, wait_for_data, Flush, Foe, FoeCfg, Env, Slave, M, ◌>>=◌, ◌>>◌, when}
use soes.Foe.File.{flush, flush_full, put_byte, fwrite_loop, fwrite}
use soes.Foe.Reply.{abort, send_ack, foe_data_size}
use soes.Foe.Handlers.{awaits_data, request_length, write_data, full_packet, take_data, foe_data}
use soes.Foe.Stream.{Receiving, Receiving-update, fwrite-SameSession}
use soes.Foe.Frames.{send_ack_foe, send_ack_available}
use soes.Foe.Receiver.{payload}
use soes.Foe.Packets.{write_data-Receiving}

-- A write function that never fails.
abbrev pub Accepts : FoeCfg → Type 0
Accepts cfg = (calls : List Flush) → cfg.write_function calls ≡ 0

put_byte-Accepts :
    (cfg : FoeCfg) (v : ℕ) (f : Foe)
    → Accepts cfg
    → ((put_byte cfg v f).0 ≡ false)
      × ((put_byte cfg v f).1.fend ≡ f.fend)
      × ((put_byte cfg v f).1.fposition ≡ u32 (f.fposition + 1))
unfolding put_byte flush_full flush
put_byte-Accepts cfg v f a = grind (arith, a)

fwrite_loop_counts :
    (cfg : FoeCfg) (m : Mem) (len at n : ℕ) (f : Foe)
    → Accepts cfg
    → f.fposition + len ≤ f.fend
    → f.fend < 4294967296
    → n + len < 4294967296
    → (fwrite_loop cfg m len at n f).0 ≡ n + len
unfolding fwrite_loop
fwrite_loop_counts cfg m zero at n f a room small h = omega arith
fwrite_loop_counts cfg m (suc len) at n f a room small h =
    let (ok, end, pos) = put_byte-Accepts cfg (load8 m at) f a in
    let g = (put_byte cfg (load8 m at) f).1 in
    let later =
      fwrite_loop_counts cfg m len (at + 1) (u32 (n + 1)) g a (omega (arith, end, pos))
        (omega (arith, end)) (omega arith) in
    ground (arith, ok, later)

-- If the write function never fails and the file has room for the bytes, FOE_fwrite counts all of them.
pub fwrite_counts :
    (cfg : FoeCfg) (m : Mem) (at len : ℕ) (f : Foe)
    → Accepts cfg
    → f.fposition + len ≤ f.fend
    → f.fend < 4294967296
    → (fwrite cfg m at len f).0 ≡ len
unfolding fwrite
fwrite_counts cfg m at len f a room small =
    fwrite_loop_counts cfg m len at 0 (record f { fprevposition = f.fposition }) a room small
      (omega arith)
    ∙ omega arith

write_data_control : (len : ℕ) (e : Env) (s : Slave) → (write_data len e s).1.control ≡ s.control
unfolding write_data
write_data_control len e s = refl

write_data_session :
    (len : ℕ) (e : Env) (s : Slave)
    → ((write_data len e s).1.foe.state ≡ s.foe.state)
      × ((write_data len e s).1.foe.packet ≡ s.foe.packet)
unfolding write_data
write_data_session len e s = ground (arith, fwrite-SameSession e.foe s.mem 12 len s.foe)

write_data_mbx : (e : Env) (s : Slave) (len : ℕ) → (write_data len e s).1.mbx ≡ s.mbx
unfolding write_data
write_data_mbx e s len = refl

write_data_counts :
    (len : ℕ) (e : Env) (s : Slave)
    → (fwrite e.foe s.mem 12 len s.foe).0 ≡ len
    → (write_data len e s).0 ≡ len
unfolding write_data
write_data_counts len e s h = h

-- A transfer that goes on with `xs` received and `packet` the next number.
pub record GoesOn (cfg : FoeCfg) (base : List Flush) (file : ℕ) (xs : List ℕ) (packet : ℕ) (f : Foe)
    : Type 0 where
  pub waits : f.state ≡ wait_for_data
  pub number : f.packet ≡ packet
  pub handed : List ℕ
  pub stream : Receiving cfg base file xs handed f

acked-GoesOn :
    (base : List Flush) (file packet : ℕ) (xs ys : List ℕ) (e : Env) (s : Slave)
    → (send_ack e s).0 ≡ 0
    → Receiving e.foe base file xs ys s.foe
    → s.foe.state ≡ wait_for_data
    → s.foe.packet ≡ packet
    → GoesOn e.foe base file xs
        (u32 (packet + 1))
        ((send_ack >>= λ res. when (not (res == 0)) (abort res)) e s).1.foe
acked-GoesOn base file packet xs ys e s sent r w k =
    if-elim
      (λ (m : M (Unit {0})).
        GoesOn e.foe base file xs (u32 (packet + 1)) (m e (send_ack e s).1).1.foe)
      (not ((send_ack e s).0 == 0)) (λ p. absurd (ground (arith, sent)))
      (λ _.
        let q : (send_ack e s).1.foe ≡ record (s.foe) { packet = u32 (s.foe.packet + 1) } =
          ground (arith, send_ack_foe e s) in
        rw q (record {
          waits = w;
          number = ap (λ n. u32 (n + 1)) k;
          handed = ys;
          stream =
              Receiving-update e.foe base file s.foe.fprevposition (u32 (s.foe.packet + 1))
                s.foe.total_size s.foe.state r;
        }))

full_packet-GoesOn :
    (base : List Flush) (file packet len : ℕ) (xs ys : List ℕ) (e : Env) (s : Slave)
    → (send_ack e s).0 ≡ 0
    → Receiving e.foe base file xs ys s.foe
    → s.foe.state ≡ wait_for_data
    → s.foe.packet ≡ packet
    → GoesOn e.foe base file xs (u32 (packet + 1)) (full_packet len len e s).1.foe
unfolding full_packet
full_packet-GoesOn base file packet len xs ys e s sent r w k =
    if-elim
      (λ (m : M (Unit {0})).
        GoesOn e.foe base file xs (u32 (packet + 1))
          ((m >> (send_ack >>= λ res. when (not (res == 0)) (abort res))) e s).1.foe)
      (not (len == len)) (λ p. absurd (ground arith))
      (λ _. acked-GoesOn base file packet xs ys e s sent r w k)

-- While a file is being received with a write function that never fails, a full packet with the expected
-- number that fits into the file is taken, if some buffer is idle for the acknowledgement: afterwards the
-- packet's data are appended to what has been received, and the next packet number is awaited.
pub foe_data-GoesOn :
    (e : Env) (s : Slave) (base : List Flush) (file k : ℕ) (xs ys : List ℕ)
    → Accepts e.foe
    → s.foe.state ≡ wait_for_data
    → Receiving e.foe base file xs ys s.foe
    → load32 s.mem 8 ≡ s.foe.packet
    → request_length s ≡ foe_data_size s
    → request_length s ≢ 0
    → s.foe.fposition + request_length s ≤ s.foe.fend
    → 0 < k
    → k ≤ e.buffers - 1
    → s.control k ≡ idle
    → GoesOn e.foe base file (xs ++ payload s) (u32 (s.foe.packet + 1)) (foe_data e s).1.foe
unfolding foe_data take_data
foe_data-GoesOn e s base file k xs ys a w r num full some room p h i =
    let all = fwrite_counts e.foe s.mem 12 len s.foe a room r.end_small in
    let all' = write_data_counts len e s all in
    let u = (write_data len e s).1 in
    let (sw, sk) = write_data_session len e s in
    let (zs, t) = write_data-Receiving e s base file len xs ys (omega arith) r all' in
    if-elim (P s) (awaits_data s.foe.state)
      (λ _.
        if-elim (P s) (load32 s.mem 8 == s.foe.packet)
          (λ _.
            if-elim (P s) (len == 0) (λ z. absurd (ground arith))
              (λ _.
                if-elim (P s) (ltb s.foe.fend (u32 (s.foe.fposition + len)))
                  (λ z. absurd (ground (arith, r.end_small)))
                  (λ _.
                    if-elim (P u) ((write_data len e s).0 == 0) (λ z. absurd (ground (arith, all')))
                      (λ _.
                        if-elim (P u) (len == foe_data_size u)
                          (λ _. rw all' (
                            full_packet-GoesOn base file s.foe.packet len (xs ++ payload s) zs e u
                              (send_ack_available e u k p h
                                (ap (λ c. c k) (write_data_control len e s) ∙ i))
                              t (sw ∙ w) sk))
                          (λ z. absurd (ground (arith, full, write_data_mbx e s len)))))))
          (λ z. absurd (ground arith)))
      (λ z. absurd (ground arith))
  where
    len : ℕ
    len = request_length s

    P : Slave → M (Unit {0}) → Type 0
    P v m = GoesOn e.foe base file (xs ++ payload s) (u32 (s.foe.packet + 1)) (m e v).1.foe

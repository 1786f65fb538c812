-- ===== src/Foe/Completion.antt =====
-- The end of a transfer: FOE_data of soes/esc_foe.c.
use soes.Base.{ℕ, ◌+◌, ◌≡◌, ◌≢◌, refl, false, List, ◌++◌, ◌==◌, ltb, if-elim, u32, arith}
use soes.Base.Memory.{load32}
use soes.Slave.{wait_for_data, ready, Flush, Foe, Env, Slave, M}
use soes.Foe.File.{init}
use soes.Foe.Reply.{abort, send_ack, foe_data_size}
use soes.Foe.Handlers.{
  awaits_data, request_length, write_data, close, complete, short_packet, take_data, foe_data,
}
use soes.Foe.Stream.{Written, Receiving, fclose-Written}
use soes.Foe.Frames.{abort_foe, send_ack_foe}
use soes.Foe.Receiver.{payload}
use soes.Foe.Packets.{write_data-Receiving}

-- A transfer that has ended, with `xs` handed over for `file` since `base`.
pub record Delivered (base : List Flush) (file : ℕ) (xs : List ℕ) (f : Foe) : Type 0 where
  pub size : ℕ
  pub written : Written base file f.flushes size xs
  pub ended : f.state ≡ ready

module _ (base : List Flush) (file : ℕ) (xs : List ℕ) where
  abort-Delivered :
      (code p : ℕ) (e : Env) (s : Slave)
      → Written base file s.foe.flushes p xs
      → Delivered base file xs (abort code e s).1.foe
  unfolding init
  abort-Delivered code p e s w = rw abort_foe (record { size = p; written = w; ended = refl })

  complete-Delivered :
      (p : ℕ) (e : Env) (s : Slave)
      → Written base file s.foe.flushes p xs
      → Delivered base file xs (complete e s).1.foe
  unfolding complete init
  complete-Delivered p e s w =
      let same : (send_ack e s).1.foe.flushes ≡ s.foe.flushes = ground (arith, send_ack_foe e s) in
      record { size = p; written = rw same w; ended = refl }

  close-Delivered :
      (ys : List ℕ) (e : Env) (s : Slave)
      → Receiving e.foe base file xs ys s.foe
      → Written base file (close e s).1.foe.flushes s.foe.fposition xs
  unfolding close
  close-Delivered ys e s r = (fclose-Written e.foe base file xs ys s.foe r).0

  short_packet-Delivered :
      (n len : ℕ) (ys : List ℕ) (e : Env) (s : Slave)
      → n ≡ len
      → Receiving e.foe base file xs ys s.foe
      → Delivered base file xs (short_packet n len e s).1.foe
  unfolding short_packet
  short_packet-Delivered n len ys e s q r =
      if-elim (λ (m : M (Unit {0})). Delivered base file xs (m e s).1.foe) (n == len)
        (λ _.
          let t = (close e s).1 in
          if-elim (λ (m : M (Unit {0})). Delivered base file xs (m e t).1.foe) (close e s).0
            (λ _. abort-Delivered _ _ e t (close-Delivered ys e s r))
            (λ _. complete-Delivered _ e t (close-Delivered ys e s r)))
        (λ z. absurd (ground arith))

write_data_mbx : (e : Env) (s : Slave) (len : ℕ) → (write_data len e s).1.mbx ≡ s.mbx
unfolding write_data
write_data_mbx e s len = refl

-- On the last packet of a file that is being received (the packet has the expected number, is not
-- empty, is shorter than a full one and fits into the file, and FOE_fwrite counts all its bytes),
-- the write function has had the file's bytes, in order and at consecutive offsets from 0, and
-- the transfer has ended, whether or not the last hand-over failed.
pub foe_data-Delivered :
    (e : Env) (s : Slave) (base : List Flush) (file : ℕ) (xs ys : List ℕ)
    → s.foe.state ≡ wait_for_data
    → Receiving e.foe base file xs ys s.foe
    → load32 s.mem 8 ≡ s.foe.packet
    → request_length s ≢ 0
    → request_length s ≢ foe_data_size s
    → (write_data (request_length s) e s).0 ≡ request_length s
    → ltb s.foe.fend (u32 (s.foe.fposition + request_length s)) ≡ false
    → Delivered base file (xs ++ payload s) (foe_data e s).1.foe
unfolding foe_data take_data
foe_data-Delivered e s base file xs ys w r num nz ns all room =
    let (zs, t) = write_data-Receiving e s base file len xs ys (omega arith) r all in
    let u = (write_data len e s).1 in
    if-elim (P s) (awaits_data s.foe.state)
      (λ _.
        if-elim (P s) (load32 s.mem 8 == s.foe.packet)
          (λ _.
            if-elim (P s) (len == 0) (λ z. absurd (ground arith))
              (λ _.
                if-elim (P s) (ltb s.foe.fend (u32 (s.foe.fposition + len)))
                  (λ z. absurd (ground arith))
                  (λ _.
                    if-elim (P u) ((write_data len e s).0 == 0) (λ z. absurd (ground arith))
                      (λ _.
                        if-elim (P u) (len == foe_data_size u)
                          (λ z. absurd (ground (arith, write_data_mbx e s len)))
                          (λ _.
                            short_packet-Delivered base file (xs ++ payload s) _ len zs e u all
                              t)))))
          (λ z. absurd (ground arith)))
      (λ z. absurd (ground arith))
  where
    len : ℕ
    len = request_length s

    P : Slave → M (Unit {0}) → Type 0
    P v m = Delivered base file (xs ++ payload s) (m e v).1.foe

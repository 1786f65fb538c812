-- ===== src/Foe/Session.antt =====
-- ESC_foeprocess (soes/esc_foe.c) and the steps of the abstract receiver.
use soes.Base.{
  ◌≢◌, ◌⊎◌, sym, eq-of-==, ℕ, ◌+◌, ◌≡◌, refl, ◌∙◌, inl, inr, Bool, true, false, ◌&&◌, ◌==◌, ltb,
  if-elim, u32, arith,
}
use mathlib.Core.Path.{subst}
use soes.Base.Memory.{load16, load32, load_low}
use soes.Codes.{foe_header_size}
use soes.Codes.FoeOp
use soes.Codes.MbxType
use soes.Slave.{set_mbx, ◌>>◌, Env, Slave, M}
use soes.Mailbox.{is_inclaim}
use soes.Foe.Handlers.{
  awaits_data, request_length, foe_data, foe_error, dispatch, take_over, handle, release,
  process_taken, foeprocess,
}
use soes.Foe.Receiver.{
  Receiver, idle, Holds, idle_holds, receiving_holds, Next, opened, took, ended, stop, Steps,
  opcode_in, HasMessage, Refusal, too_short, other_operation, not_receiving, busy, wrong_number,
  too_long, not_written, not_opened, no_buffer, abort-Steps, CfgIsValid, foe_write-Steps,
}
use soes.Foe.Packets.{complete-Steps, take_data-Steps}

foe_data-Steps :
    (e : Env) (s : Slave) (r : Receiver)
    → opcode_in s ≡ FoeOp.dat
    → Holds e.foe s.foe r
    → Steps e s r (foe_data e s).1.foe
unfolding foe_data
foe_data-Steps e s r o (idle_holds w z) =
    if-elim (λ (m : M (Unit {0})). Steps e s r (m e s).1.foe) (awaits_data s.foe.state)
      (λ p. absurd (ground arith)) (λ _. abort-Steps _ e s s r (stop r (not_receiving o)))
foe_data-Steps e s r o (receiving_holds base file xs ys packet w k t) =
    if-elim P (awaits_data s.foe.state)
      (λ _.
        if-elim P (load32 s.mem 8 == s.foe.packet)
          (λ number.
            if-elim P (request_length s == 0)
              (λ none_left. complete-Steps e base file packet xs s _ r (
                ended base file xs packet o (eq-of-== _ _ number ∙ k)
                  (inl (eq-of-== _ _ none_left))))
              (λ some.
                if-elim P (ltb s.foe.fend (u32 (s.foe.fposition + request_length s)))
                  (λ long. abort-Steps _ e s s r (
                    stop r
                      (too_long base file xs packet o (eq-of-== _ _ number ∙ k) (ground arith))))
                  (λ room.
                    take_data-Steps e s base file packet xs ys o (eq-of-== _ _ number ∙ k)
                      (λ z. ground (arith, some, z)) (ground (arith, room)) t w k)))
          (λ number.
            abort-Steps _ e s s r
              (stop r (wrong_number base file xs packet o (λ z. ground (arith, number, z, k))))))
      (λ p. absurd (ground (arith, w)))
  where
    P : M (Unit {0}) → Type 0
    P m = Steps e s r (m e s).1.foe

dispatch-Steps :
    (e : Env) (s : Slave) (r : Receiver) (read_supported : Bool)
    → CfgIsValid e.foe
    → read_supported ≡ false
    → Holds e.foe s.foe r
    → Steps e s r (dispatch read_supported (opcode_in s) e s).1.foe
unfolding dispatch foe_error
dispatch-Steps e s r true v n h = cc
dispatch-Steps e s r false v n h =
    if-elim P (opcode_in s == FoeOp.wrq) (λ o. foe_write-Steps e s r v (eq-of-== _ _ o) h)
      (λ w.
        if-elim P (opcode_in s == FoeOp.dat) (λ o. foe_data-Steps e s r (eq-of-== _ _ o) h)
          (λ d.
            let other : Next e s r idle =
              stop r (other_operation r (λ z. ground (arith, w, z)) (λ z. ground (arith, d, z))) in
            if-elim P (opcode_in s == FoeOp.err) (λ _. abort-Steps _ e s s r other)
              (λ _. abort-Steps _ e s s r other)))
  where
    P : M (Unit {0}) → Type 0
    P m = Steps e s r (m e s).1.foe

process_taken-Steps :
    (e : Env) (s : Slave) (r : Receiver)
    → CfgIsValid e.foe
    → e.foe.read_supported ≡ false
    → s.mbx.xoe ≡ MbxType.foe
    → Holds e.foe s.foe r
    → Steps e s r (process_taken e s).1.foe
unfolding process_taken handle release
process_taken-Steps e s r v n x h =
    if-elim P (s.mbx.xoe == MbxType.foe)
      (λ _.
        if-elim (λ (m : M (Unit {0})). P (m >> release)) (ltb (load16 s.mem 0) foe_header_size)
          (λ p. abort-Steps _ e s s r (stop r (too_short r (ground arith))))
          (λ _. dispatch-Steps e s r e.foe.read_supported v n h))
      (λ p. absurd (ground (arith, p, x)))
  where
    P : M (Unit {0}) → Type 0
    P m = Steps e s r (m e s).1.foe

-- Without a message nothing is done.
idle_process : (e : Env) (s : Slave) → s.mbx.xoe ≢ MbxType.foe → (process_taken e s).1.foe ≡ s.foe
unfolding process_taken
idle_process e s h =
    if-elim (λ (m : M (Unit {0})). (m e s).1.foe ≡ s.foe) (s.mbx.xoe == MbxType.foe)
      (λ p. absurd (h (eq-of-== _ _ p))) (λ _. refl)

-- The state with the message taken.
abbrev took_over : Slave → Slave
took_over = set_mbx (λ b. record b { xoe = MbxType.foe })

took_over-Refusal : (e : Env) (s : Slave) (r : Receiver) → Refusal e (took_over s) r → Refusal e s r
took_over-Refusal e s r (too_short _ h) = too_short r h
took_over-Refusal e s r (other_operation _ h k) = other_operation r h k
took_over-Refusal e s _ (not_receiving h) = not_receiving h
took_over-Refusal e s _ (busy base file xs packet h) = busy base file xs packet h
took_over-Refusal e s _ (wrong_number base file xs packet h k) =
    wrong_number base file xs packet h k
took_over-Refusal e s _ (too_long base file xs packet o n h) = too_long base file xs packet o n h
took_over-Refusal e s _ (not_written base file xs packet o n h) =
    not_written base file xs packet o n h
took_over-Refusal e s _ (not_opened o h) = not_opened o h
took_over-Refusal e s r (no_buffer _ h) = no_buffer r h

took_over-Next : (e : Env) (s : Slave) (r r' : Receiver) → Next e (took_over s) r r' → Next e s r r'
took_over-Next e s _ _ (opened file h o c) = opened file h o c
took_over-Next e s _ _ (took base file xs packet o n l r) = took base file xs packet o n l r
took_over-Next e s _ _ (ended base file xs packet o n l) = ended base file xs packet o n l
took_over-Next e s r _ (stop _ h) = stop r (took_over-Refusal e s r h)

-- In a build without FOE_READ_SUPPORTED, with a buffer of 1 to 65535 bytes and files below 4 GiB: if the FoE
-- variables stand for a receiver, then without a message for FoE they stand for the same one after
-- ESC_foeprocess; and with one they stand for one that the message leads to in a single step. A write
-- request opens the file that FOE_fopen chooses. A data packet with the number that is awaited, with room
-- for it and of full length has its data appended, and the next number is awaited; an empty one, or one of
-- another length with room for it, ends the transfer. Otherwise the receiver is idle afterwards, for one of
-- these reasons: the message is too short, of another operation, or not due in this state; its number is not
-- the one awaited; the file has no room; FOE_fwrite does not count all its bytes; FOE_fopen refuses the
-- file; or no buffer is idle for the acknowledgement.
pub foeprocess-Next :
    (e : Env) (s : Slave) (r : Receiver)
    → CfgIsValid e.foe
    → e.foe.read_supported ≡ false
    → Holds e.foe s.foe r
    → ((¬ HasMessage s) × Holds e.foe (foeprocess e s).1.foe r)
      ⊎ (HasMessage s × ((r' : Receiver) × Next e s r r' × Holds e.foe (foeprocess e s).1.foe r'))
unfolding foeprocess take_over
foeprocess-Next e s r v n h =
    if-elim P s.mbx.run
      (λ run.
        if-elim (λ (m : M (Unit {0})). P (m >> process_taken))
          ((s.mbx.xoe == 0) && is_inclaim (s.control 0) && (load_low s.mem 5 == MbxType.foe))
          (λ q.
            let (r', step, held) = process_taken-Steps e (took_over s) r v n refl h in
            inr (
              (run, inr (ground (arith, q), ground (arith, q), ground (arith, q))),
              (r', took_over-Next e s r r' step, held),
            ))
          (λ q. elim (cases s.mbx.xoe) [
            | inl x ↦ inr ((run, inl x), process_taken-Steps e s r v n x h)
            | inr x ↦ inl (none run q x, subst (λ f. Holds e.foe f r) (sym (idle_process e s x)) h)
          ]))
      (λ run. inl (λ m. ground (arith, run, m.0), h))
  where
    P : M (Unit {0}) → Type 0
    P m =
        ((¬ HasMessage s) × Holds e.foe (m e s).1.foe r)
        ⊎ (HasMessage s × ((r' : Receiver) × Next e s r r' × Holds e.foe (m e s).1.foe r'))

    cases : (x : ℕ) → (x ≡ MbxType.foe) ⊎ (x ≢ MbxType.foe)
    cases x = ground arith

    none :
        s.mbx.run ≡ true
        → ((s.mbx.xoe == 0) && is_inclaim (s.control 0) && (load_low s.mem 5 == MbxType.foe))
          ≡ false
        → s.mbx.xoe ≢ MbxType.foe
        → ¬ HasMessage s
    none run q x (_, inl y) = x y
    none run q x (_, inr (a, b, c)) = ground (arith, q, a, b, c)

-- ===== src/Al/Safety.antt =====
-- The switch of ESC_state (soes/esc.c) and the outputs, case by case.
use soes.Base.{
  ℕ, ◌/◌, ◌%◌, ◌≡◌, ◌≢◌, refl, ◌∙◌, inl, inr, true, false, ◌||◌, arith, ◌==◌, ltb, if-elim,
  eq-of-==,
}
use soes.Slave.{Env, Slave, M}
use soes.Al.Outputs.{startoutput}
use soes.Al.Request.{enter_op, hold_op, to_preop, to_init_or_boot, change}
use soes.Al.Steady.{
  startoutput-pending, Steady-trans, read_address-Steady, startmbx-Steady, startmbxboot-Steady,
}
use soes.Al.Off.{
  IsOff, IsSafeAs, Steady-IsOff, refuse-IsOff, enter_safeop-IsOff, op_to_boot-IsOff, leave-IsOff,
  unknown_request-IsSafe,
}

module _ (as_ ac an : ℕ) (e : Env) (s : Slave) (from : as_ % 16 ≡ an % 16) (safe : IsSafeAs an s)
    (none_waits : s.sync.op_pending ≡ false) where
  -- The outputs are off if the transition does not start from OP.
  IsOff-unless_op : as_ % 16 ≢ 8 → IsOff s
  IsOff-unless_op h = elim safe [ inl off ↦ off | inr op ↦ absurd (h (from ∙ op.0)) ]

  -- The result of one case of the switch is safe.
  abbrev IsSafeCase : M ℕ → Type 0
  IsSafeCase m = IsSafeAs (m e s).0 (m e s).1

  to_preop-IsSafe : IsSafeCase (to_preop as_ ac an)
  unfolding to_preop
  to_preop-IsSafe =
      if-elim IsSafeCase (as_ == 0x21)
        (λ p. inl (
          Steady-IsOff (Steady-trans (read_address-Steady e s) (startmbx-Steady ac e _))
            (IsOff-unless_op (ground arith))))
        (λ _.
          if-elim IsSafeCase (as_ == 0x22) (λ _. safe)
            (λ _.
              if-elim IsSafeCase (as_ == 0x23)
                (λ p. inl (refuse-IsOff _ _ e s (IsOff-unless_op (ground arith))))
                (λ _.
                  if-elim IsSafeCase (as_ == 0x24)
                    (λ p.
                      inl
                        (leave-IsOff false true false _ e s (inr (IsOff-unless_op (ground arith)))))
                    (λ _.
                      if-elim IsSafeCase (as_ == 0x28)
                        (λ p. inl (leave-IsOff true true false _ e s (inl refl)))
                        (λ _. unknown_request-IsSafe as_ an e s safe)))))

  to_init_or_boot-IsSafe : IsSafeCase (to_init_or_boot as_ ac an)
  unfolding to_init_or_boot
  to_init_or_boot-IsSafe =
      if-elim IsSafeCase (as_ == 0x11) (λ _. safe)
        (λ _.
          if-elim IsSafeCase ((as_ == 0x12) || (as_ == 0x13))
            (λ p. inl (leave-IsOff false false true _ e s (inr (IsOff-unless_op (ground arith)))))
            (λ _.
              if-elim IsSafeCase (as_ == 0x14)
                (λ p.
                  inl (leave-IsOff false true true _ e s (inr (IsOff-unless_op (ground arith)))))
                (λ _.
                  if-elim IsSafeCase (as_ == 0x18)
                    (λ p. inl (leave-IsOff true true true _ e s (inl refl)))
                    (λ _.
                      if-elim IsSafeCase ((as_ == 0x31) || (as_ == 0x33))
                        (λ p. inl (
                          Steady-IsOff
                            (Steady-trans (read_address-Steady e s) (startmbxboot-Steady ac e _))
                            (IsOff-unless_op (ground arith))))
                        (λ _.
                          if-elim IsSafeCase (as_ == 0x32)
                            (λ p. inl (refuse-IsOff _ _ e s (IsOff-unless_op (ground arith))))
                            (λ _.
                              if-elim IsSafeCase (as_ == 0x34)
                                (λ p. inl (refuse-IsOff _ _ e s (IsOff-unless_op (ground arith))))
                                (λ _.
                                  if-elim IsSafeCase (as_ == 0x38) (λ _. inl (op_to_boot-IsOff e s))
                                    (λ _. to_preop-IsSafe))))))))

  enter_op-IsSafe : as_ ≡ 0x84 → as_ / 16 ≡ ac % 16 → IsSafeCase (enter_op ac)
  unfolding enter_op hold_op startoutput
  enter_op-IsSafe p to =
      if-elim IsSafeCase (ltb 0 s.sync.dcsync) (λ _. inl (IsOff-unless_op (omega arith)))
        (λ _. inr (omega arith, startoutput-pending ac e s ∙ none_waits))

  pub change-IsSafe : as_ / 16 ≡ ac % 16 → IsSafeCase (change as_ ac an)
  unfolding change
  change-IsSafe to =
      if-elim IsSafeCase ((as_ == 0x41) || (as_ == 0x81))
        (λ p. inl (refuse-IsOff _ _ e s (IsOff-unless_op (ground arith))))
        (λ _.
          if-elim IsSafeCase ((as_ == 0x82) || (as_ == 0x43) || (as_ == 0x83))
            (λ p. inl (refuse-IsOff _ _ e s (IsOff-unless_op (ground arith))))
            (λ _.
              if-elim IsSafeCase ((as_ == 0x42) || (as_ == 0x44))
                (λ p. inl (enter_safeop-IsOff ac e s (IsOff-unless_op (ground arith))))
                (λ _.
                  if-elim IsSafeCase (as_ == 0x84) (λ p. enter_op-IsSafe (eq-of-== as_ 0x84 p) to)
                    (λ _.
                      if-elim IsSafeCase (as_ == 0x48)
                        (λ _. inl (leave-IsOff true false false _ e s (inl refl)))
                        (λ _.
                          if-elim IsSafeCase (as_ == 0x88) (λ _. safe)
                            (λ _. to_init_or_boot-IsSafe))))))

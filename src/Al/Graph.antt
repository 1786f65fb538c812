-- ===== src/Al/Graph.antt =====
-- The states that ESC_state (soes/esc.c) may move between.
use soes.Base.{
  ℕ, ◌/◌, ◌%◌, ◌≡◌, refl, ◌⊎◌, inl, inr, Bool, true, not, ◌&&◌, ◌||◌, arith, ◌==◌, ltb, if-elim,
  set_bit,
}
use soes.Codes.{esc_op, esc_error}
use soes.Slave.{Env, Slave, M}
use soes.Bus.{read_sm, read_address}
use soes.Al.Managers.{
  startmbx, startmbxboot, enable_mbx, check_mbx, fail_mbx, check_sm23, fail_sm23, init_error,
  preop_error, mbx_differs, bad_sm2, bad_sm3, check_dc,
}
use soes.Al.Outputs.{startoutput, startinput, start_inputs, check_sync}
use soes.Al.Request.{
  refuse, leave, enter_op, hold_op, enter_safeop, size_sm2, size_sm3, to_preop, to_init_or_boot,
  change, op_to_boot, unknown_request, report_unknown,
}

-- The moves between INIT (1), PREOP (2), BOOT (3), SAFEOP (4) and OP (8): a state may stay, and may fall
-- back to INIT; INIT goes up to PREOP or BOOT, PREOP to SAFEOP, SAFEOP to OP, the last one only without
-- distributed clocks (`dc`); SAFEOP and OP go down; and a refused request takes BOOT to PREOP.
abbrev pub has_edge : (dc : Bool) → (from to : ℕ) → Bool
has_edge dc from to =
    (from == to)
    || (to == 1)
    || ((from == 1) && ((to == 2) || (to == 3)))
    || ((from == 2) && (to == 4))
    || ((from == 4) && ((to == 2) || ((to == 8) && not dc)))
    || ((from == 8) && ((to == 2) || (to == 4)))
    || ((from == 3) && (to == 2))

-- A program answers with `v`, or with `failed`.
abbrev AnswersOr : ℕ → ℕ → ℕ → Type 0
AnswersOr v failed r = (r ≡ v) ⊎ (r ≡ failed)

check_mbx-Answers : (v : ℕ) (e : Env) (s : Slave) → AnswersOr v init_error (check_mbx v e s).0
unfolding check_mbx fail_mbx
check_mbx-Answers v e s =
    let after = (read_sm 1 e (read_sm 0 e s).1).1 in
    if-elim (λ (m : M ℕ). AnswersOr v init_error (m e after).0)
      (mbx_differs after.mbx.mb0 (after.sm 0)) (λ _. inr refl)
      (λ _.
        if-elim (λ (m : M ℕ). AnswersOr v init_error (m e after).0)
          (mbx_differs after.mbx.mb1 (after.sm 1)) (λ _. inr refl) (λ _. inl refl))

enable_mbx-Answers :
    (v error : ℕ) (e : Env) (s : Slave) → AnswersOr v init_error (enable_mbx v error e s).0
unfolding enable_mbx
enable_mbx-Answers v error e s = check_mbx-Answers v e _

startmbx-Answers : (v : ℕ) (e : Env) (s : Slave) → AnswersOr v init_error (startmbx v e s).0
unfolding startmbx
startmbx-Answers v e s = enable_mbx-Answers v _ e _

startmbxboot-Answers : (v : ℕ) (e : Env) (s : Slave) → AnswersOr v init_error (startmbxboot v e s).0
unfolding startmbxboot
startmbxboot-Answers v e s = enable_mbx-Answers v _ e _

check_sm23-Answers : (v : ℕ) (e : Env) (s : Slave) → AnswersOr v preop_error (check_sm23 v e s).0
unfolding check_sm23 fail_sm23
check_sm23-Answers v e s =
    let one = (read_sm 2 e s).1 in
    let two = (read_sm 3 e one).1 in
    if-elim (λ (m : M ℕ). AnswersOr v preop_error (m e one).0) (bad_sm2 e.al one) (λ _. inr refl)
      (λ _.
        if-elim (λ (m : M ℕ). AnswersOr v preop_error (m e two).0) (bad_sm3 e.al two)
          (λ _. inr refl) (λ _. inl refl))

check_sync-Answers : (v : ℕ) (e : Env) (s : Slave) → AnswersOr v preop_error (check_sync v e s).0
unfolding check_sync
check_sync-Answers v e s =
    let r = check_dc e s in
    if-elim (λ (m : M ℕ). AnswersOr v preop_error (m e r.1).0) (ltb 0 r.0) (λ _. inr refl)
      (λ _. inl refl)

startinput-Answers : (v : ℕ) (e : Env) (s : Slave) → AnswersOr v preop_error (startinput v e s).0
unfolding startinput
startinput-Answers v e s =
    let r = check_sm23 v e s in
    let t = (start_inputs r.0 e r.1).1 in
    let checked = check_sm23-Answers v e s in
    if-elim (λ (m : M ℕ). AnswersOr v preop_error (m e t).0)
      (e.al.use_interrupt && not (r.0 == preop_error))
      (λ _. both (check_sync r.0 e t).0 r.0 (check_sync-Answers r.0 e t) checked) (λ _. checked)
  where
    both :
        (x y : ℕ)
        → AnswersOr y preop_error x
        → AnswersOr v preop_error y
        → AnswersOr v preop_error x
    both x y p q = ground (arith, p, q)

enter_safeop-Answers :
    (v : ℕ) (e : Env) (s : Slave) → AnswersOr v preop_error (enter_safeop v e s).0
unfolding enter_safeop refuse
enter_safeop-Answers v e s =
    let one = size_sm2 e s in
    let two = size_sm3 e one.1 in
    if-elim (λ (m : M ℕ). AnswersOr v preop_error (m e one.1).0) (not one.0) (λ _. inr refl)
      (λ _.
        if-elim (λ (m : M ℕ). AnswersOr v preop_error (m e two.1).0) (not two.0) (λ _. inr refl)
          (λ _. startinput-Answers v e two.1))

module _ (as_ ac an : ℕ) (e : Env) (s : Slave) (from : as_ % 16 ≡ an % 16)
    (to : as_ / 16 ≡ ac % 16) where
  -- The answer of one case of the switch is joined to the present state.
  abbrev IsMove : M ℕ → Type 0
  IsMove m = has_edge (ltb 0 s.sync.dcsync) (as_ % 16) ((m e s).0 % 16) ≡ true

  stays : (v : ℕ) → as_ % 16 ≡ v % 16 → has_edge (ltb 0 s.sync.dcsync) (as_ % 16) (v % 16) ≡ true
  stays v h = ground arith

  unknown_request-IsMove : IsMove (unknown_request as_ an)
  unfolding unknown_request report_unknown
  unknown_request-IsMove =
      if-elim IsMove (an == esc_op) (λ p. ground arith)
        (λ _. stays (set_bit an esc_error) (ground arith))

  to_preop-IsMove : IsMove (to_preop as_ ac an)
  unfolding to_preop refuse leave
  to_preop-IsMove =
      if-elim IsMove (as_ == 0x21) (λ p. ground (arith, startmbx-Answers ac e (read_address e s).1))
        (λ _.
          if-elim IsMove (as_ == 0x22) (λ _. stays an from)
            (λ _.
              if-elim IsMove (as_ == 0x23) (λ p. ground arith)
                (λ _.
                  if-elim IsMove (as_ == 0x24) (λ p. ground arith)
                    (λ _.
                      if-elim IsMove (as_ == 0x28) (λ p. ground arith)
                        (λ _. unknown_request-IsMove)))))

  to_init_or_boot-IsMove : IsMove (to_init_or_boot as_ ac an)
  unfolding to_init_or_boot refuse leave op_to_boot
  to_init_or_boot-IsMove =
      if-elim IsMove (as_ == 0x11) (λ _. stays an from)
        (λ _.
          if-elim IsMove ((as_ == 0x12) || (as_ == 0x13)) (λ p. ground arith)
            (λ _.
              if-elim IsMove (as_ == 0x14) (λ p. ground arith)
                (λ _.
                  if-elim IsMove (as_ == 0x18) (λ p. ground arith)
                    (λ _.
                      if-elim IsMove ((as_ == 0x31) || (as_ == 0x33))
                        (λ p. ground (arith, startmbxboot-Answers ac e (read_address e s).1))
                        (λ _.
                          if-elim IsMove (as_ == 0x32) (λ p. ground arith)
                            (λ _.
                              if-elim IsMove (as_ == 0x34) (λ p. ground arith)
                                (λ _.
                                  if-elim IsMove (as_ == 0x38) (λ p. ground arith)
                                    (λ _. to_preop-IsMove))))))))

  pub change-IsMove : IsMove (change as_ ac an)
  unfolding change refuse leave enter_op hold_op startoutput
  change-IsMove =
      if-elim IsMove ((as_ == 0x41) || (as_ == 0x81)) (λ p. ground arith)
        (λ _.
          if-elim IsMove ((as_ == 0x82) || (as_ == 0x43) || (as_ == 0x83)) (λ p. ground arith)
            (λ _.
              if-elim IsMove ((as_ == 0x42) || (as_ == 0x44))
                (λ p. ground (arith, enter_safeop-Answers ac e s))
                (λ _.
                  if-elim IsMove (as_ == 0x84)
                    (λ p.
                      if-elim IsMove (ltb 0 s.sync.dcsync) (λ d. ground arith) (λ d. ground arith))
                    (λ _.
                      if-elim IsMove (as_ == 0x48) (λ p. ground arith)
                        (λ _.
                          if-elim IsMove (as_ == 0x88) (λ _. stays an from)
                            (λ _. to_init_or_boot-IsMove))))))

-- ===== src/Al/Pending.antt =====
-- The request for OP that waits for synchronisation: ESC_op_pending_step of soes/esc.c.
use soes.Base.{
  ℕ, ◌+◌, ◌≤◌, ◌<◌, ◌≡◌, refl, ◌∙◌, ap, ◌⊎◌, inl, inr, Bool, true, false, not, leb, List, [], ◌∷◌,
  if-elim, Bool-cases, arith,
}
use soes.Codes.{esc_op}
use soes.Slave.{Env, Slave, M, set_sync, esc_write}
use soes.Bus.{al_error, al_status}
use soes.Al.Outputs.{post_hook}
use soes.Al.Events.{
  account_period, grant_op, refuse_op, op_pending_step, is_synchronised, pending_timeout_ns, u64,
}
use soes.Al.Steady.{startoutput-pending}
use soes.Al.Invariant.{clear_error-Steady}

-- A period: whether SYNC0 and process data came, and how long it was.
pub record Period : Type 0 where
  pub sync0 : Bool
  pub sm_event : Bool
  pub elapsed_ns : ℕ

abbrev pub step : Env → Slave → Period → Slave
step e s p = (op_pending_step p.sync0 p.sm_event p.elapsed_ns e s).1

abbrev pub periods : Env → Slave → List Period → Slave
periods e s [] = s
periods e s (p ∷ ps) = periods e (step e s p) ps

abbrev pub total_ns : List Period → ℕ
total_ns [] = 0
total_ns (p ∷ ps) = p.elapsed_ns + total_ns ps

-- Once decided, a request stays decided.
step_decided : (e : Env) (s : Slave) (p : Period) → s.sync.op_pending ≡ false → step e s p ≡ s
unfolding op_pending_step
step_decided e s p h = ground arith

periods_decided :
    (e : Env) (s : Slave) (ps : List Period) → s.sync.op_pending ≡ false → periods e s ps ≡ s
periods_decided e s [] h = refl
periods_decided e s (p ∷ ps) h =
    let same = step_decided e s p h in ap (λ t. periods e t ps) same ∙ periods_decided e s ps h

-- What one period does to a waiting request.
record Waits (p : Period) (s t : Slave) : Type 0 where
  waits : t.sync.op_pending ≡ true
  age : t.sync.op_pending_ns ≡ u64 (s.sync.op_pending_ns + p.elapsed_ns)
  young : t.sync.op_pending_ns < pending_timeout_ns

grant_op-pending : (e : Env) (s : Slave) → (grant_op e s).1.sync.op_pending ≡ false
unfolding grant_op post_hook al_status esc_write
grant_op-pending e s =
    (clear_error-Steady _ e _).pending
    ∙ startoutput-pending esc_op e (set_sync (λ y. record y { op_pending = false }) s)

refuse_op-pending : (e : Env) (s : Slave) → (refuse_op e s).1.sync.op_pending ≡ false
unfolding refuse_op al_error al_status esc_write
refuse_op-pending e s = refl

step-Waits :
    (e : Env) (s : Slave) (p : Period)
    → s.sync.op_pending ≡ true
    → ((step e s p).sync.op_pending ≡ false) ⊎ Waits p s (step e s p)
unfolding op_pending_step account_period
step-Waits e s p h =
    let t = (account_period p.sync0 p.sm_event p.elapsed_ns e s).1 in
    if-elim (λ (m : M (Unit {0})). ((m e s).1.sync.op_pending ≡ false) ⊎ Waits p s (m e s).1)
      (not s.sync.op_pending) (λ q. ground arith)
      (λ q.
        if-elim (λ (m : M (Unit {0})). ((m e t).1.sync.op_pending ≡ false) ⊎ Waits p s (m e t).1)
          (is_synchronised t) (λ _. inl (grant_op-pending e t))
          (λ _.
            if-elim
              (λ (m : M (Unit {0})). ((m e t).1.sync.op_pending ≡ false) ⊎ Waits p s (m e t).1)
              (leb pending_timeout_ns t.sync.op_pending_ns) (λ _. inl (refuse_op-pending e t))
              (λ r. inr (record { waits = h; age = refl; young = ground arith }))))

-- However the periods go, a request for OP that is younger than 8.1 s is decided, granted or
-- refused, by the time the periods' lengths bring its age to 8.1 s, if their sum does not wrap at
-- 64 bits.
pub periods_decide :
    (e : Env) (s : Slave) (ps : List Period)
    → s.sync.op_pending_ns < pending_timeout_ns
    → pending_timeout_ns ≤ s.sync.op_pending_ns + total_ns ps
    → s.sync.op_pending_ns + total_ns ps < 18446744073709551616
    → (periods e s ps).sync.op_pending ≡ false
periods_decide e s [] young old short = absurd (omega arith)
periods_decide e s (p ∷ ps) young old short = elim (Bool-cases s.sync.op_pending) [
  | inr h ↦ ap (λ t. t.sync.op_pending) (periods_decided e s (p ∷ ps) h) ∙ h
  | inl h ↦ elim (step-Waits e s p h) [
    | inl decided ↦
        ap (λ t. t.sync.op_pending) (periods_decided e (step e s p) ps decided) ∙ decided
    | inr w ↦
        periods_decide e (step e s p) ps w.young (ground (arith, w.age)) (ground (arith, w.age))
  ]
]

-- ===== src/Al/Outcome.antt =====
-- ESC_op_pending_step of soes/esc.c: what a period means for a waiting request for OP.
use soes.Base.{
  ℕ, ◌+◌, ◌%◌, not, ◌≤◌, ◌<◌, ◌≡◌, refl, sym, ◌⊎◌, inl, inr, ◌==◌, Bool, true, false, ◌||◌, ◌&&◌,
  ltb, if-elim, has_bit, arith, if◌then◌else◌,
}
use mathlib.Core.Path.{subst}
use soes.Base.Int.{ℤ, pos, negsuc, below}
use soes.Codes.{esc_op}
use soes.Codes.AlErr
use soes.Slave.{Env, Slave, set_sync}
use soes.Al.Request.{safeop_error}
use soes.Al.Events.{account_period, good_sync, is_synchronised, missing}
use soes.Al.Invariant.{KeepsState}
use soes.Al.Pending.{Period, step}
use soes.Al.Stale.{accounted, step_ends}

abbrev pub IsBelow : ℤ → ℕ → Type 0
IsBelow (pos m) n = m < n
IsBelow (negsuc m) n = Unit {0}

-- A period counts as good sync: SYNC0 came, and, where the sync error counter is limited, it is below its
-- limit; else process data came, or there are no outputs.
abbrev pub Good : Slave → Period → Type 0
Good s p =
    (p.sync0 ≡ true)
    × (((0 < s.sync.limit) × IsBelow s.sync.counter s.sync.limit)
        ⊎ ((s.sync.limit ≡ 0) × ((p.sm_event ≡ true) ⊎ (s.al.sm2_sml ≡ 0))))

-- The time of good sync in a row, as an uint64_t: the period adds to it, or sets it to 0.
pub data SyncTime (s : Slave) (p : Period) : ℕ → Type 0 where
  counts : Good s p → SyncTime s p ((s.sync.op_valid_ns + p.elapsed_ns) % 18446744073709551616)
  restarts : ¬ Good s p → SyncTime s p 0

-- SYNC0 or process data came in the period or in an earlier one of the request.
abbrev pub SeenSync0 : Slave → Period → Type 0
SeenSync0 s p = (p.sync0 ≡ true) ⊎ (s.sync.op_seen_sync0 ≡ true)

abbrev pub SeenData : Slave → Period → Type 0
SeenData s p = (p.sm_event ≡ true) ⊎ (s.sync.op_seen_sm ≡ true)

-- 200 ms of good sync, and process data seen unless there are no outputs.
abbrev pub IsReady : Slave → Period → ℕ → Type 0
IsReady s p v = (200000000 ≤ v) × (SeenData s p ⊎ (s.al.sm2_sml ≡ 0))

-- The age of the request, as an uint64_t.
abbrev pub age : Slave → Period → ℕ
age s p = (s.sync.op_pending_ns + p.elapsed_ns) % 18446744073709551616

-- The error code that names what was missing.
pub data Cause (s : Slave) (p : Period) : ℕ → Type 0 where
  no_sync0 : ¬ SeenSync0 s p → Cause s p AlErr.no_sync_error
  no_data : SeenSync0 s p → ¬ SeenData s p → 0 < s.al.sm2_sml → Cause s p AlErr.watchdog
  bad_sync : SeenSync0 s p → SeenData s p ⊎ (s.al.sm2_sml ≡ 0) → Cause s p AlErr.sync_error

-- The three ends of a period.
pub record GoesToOp (s : Slave) (p : Period) (v : ℕ) (t : Slave) : Type 0 where
  pub ready : IsReady s p v
  pub status : t.al.status ≡ esc_op
  pub output : has_bit t.al.app_state 2 ≡ true
  pub decided : t.sync.op_pending ≡ false

pub record FallsBack (s : Slave) (p : Period) (v : ℕ) (t : Slave) : Type 0 where
  pub not_ready : ¬ IsReady s p v
  pub late : 8100000000 ≤ age s p
  pub status : t.al.status ≡ safeop_error
  pub error : Cause s p t.al.error
  pub app : t.al.app_state ≡ s.al.app_state
  pub decided : t.sync.op_pending ≡ false

pub record WaitsOn (s : Slave) (p : Period) (v : ℕ) (t : Slave) : Type 0 where
  pub not_ready : ¬ IsReady s p v
  pub early : age s p < 8100000000
  pub only :
      t
      ≡ set_sync
          (λ y. record y {
            op_valid_ns = v;
            op_pending_ns = age s p;
            op_seen_sync0 = p.sync0 || y.op_seen_sync0;
            op_seen_sm = p.sm_event || y.op_seen_sm;
          })
          s

below-IsBelow : (z : ℤ) (n : ℕ) → below z n ≡ true → IsBelow z n
below-IsBelow (pos m) n h = ground arith
below-IsBelow (negsuc m) n h = tt

below-of : (z : ℤ) (n : ℕ) → IsBelow z n → below z n ≡ true
below-of (pos m) n h = ground arith
below-of (negsuc m) n h = refl

or-cases : (a b : Bool) → (a || b) ≡ true → (a ≡ true) ⊎ (b ≡ true)
or-cases true b h = inl refl
or-cases false b h = inr h

or-of : (a b : Bool) → (a ≡ true) ⊎ (b ≡ true) → (a || b) ≡ true
or-of true b h = refl
or-of false b (inl h) = ground arith
or-of false b (inr h) = h

sync-cases :
    (z : ℤ) (limit sml : ℕ) (b : Bool)
    → (if ltb 0 limit then below z limit else b || (sml == 0)) ≡ true
    → ((0 < limit) × IsBelow z limit) ⊎ ((limit ≡ 0) × ((b ≡ true) ⊎ (sml ≡ 0)))
sync-cases z limit sml b =
    if-elim
      (λ (x : Bool).
        x ≡ true → ((0 < limit) × IsBelow z limit) ⊎ ((limit ≡ 0) × ((b ≡ true) ⊎ (sml ≡ 0))))
      (ltb 0 limit) (λ p h. inl (ground arith, below-IsBelow z limit h))
      (λ p h. inr (ground arith, data_or_none (or-cases b (sml == 0) h)))
  where
    data_or_none : (b ≡ true) ⊎ ((sml == 0) ≡ true) → (b ≡ true) ⊎ (sml ≡ 0)
    data_or_none (inl h) = inl h
    data_or_none (inr h) = inr (ground arith)

good_sync-Good : (s : Slave) (p : Period) → good_sync s p.sync0 p.sm_event ≡ true → Good s p
good_sync-Good s p h = (
  ground (arith, h),
  sync-cases s.sync.counter s.sync.limit s.al.sm2_sml p.sm_event (ground (arith, h)),
)

not-Good : (s : Slave) (p : Period) → good_sync s p.sync0 p.sm_event ≡ false → ¬ Good s p
not-Good s p h (a, inl (b, c)) = ground (arith, h, a, b, below-of s.sync.counter s.sync.limit c)
not-Good s p h (a, inr (b, inl c)) = ground (arith, h, a, b, c)
not-Good s p h (a, inr (b, inr c)) = ground (arith, h, a, b, c)

accounted-SyncTime :
    (e : Env) (s : Slave) (p : Period) → SyncTime s p (accounted e s p).sync.op_valid_ns
unfolding account_period
accounted-SyncTime e s p =
    if-elim (SyncTime s p) (good_sync s p.sync0 p.sm_event) (λ h. counts (good_sync-Good s p h))
      (λ h. restarts (not-Good s p h))

synchronised-IsReady :
    (e : Env) (s : Slave) (p : Period)
    → is_synchronised (accounted e s p) ≡ true
    → IsReady s p (accounted e s p).sync.op_valid_ns
unfolding account_period
synchronised-IsReady e s p h = (ground (arith, h), seen (or-cases _ _ (ground (arith, h))))
  where
    seen :
        ((p.sm_event || s.sync.op_seen_sm) ≡ true) ⊎ ((s.al.sm2_sml == 0) ≡ true)
        → SeenData s p ⊎ (s.al.sm2_sml ≡ 0)
    seen (inl q) = inl (or-cases p.sm_event s.sync.op_seen_sm q)
    seen (inr q) = inr (ground arith)

not_ready_lem :
    (e : Env) (s : Slave) (p : Period)
    → is_synchronised (accounted e s p) ≡ false
    → ¬ IsReady s p (accounted e s p).sync.op_valid_ns
unfolding account_period
not_ready_lem e s p h (v, inl q) = ground (arith, h, v, or-of p.sm_event s.sync.op_seen_sm q)
not_ready_lem e s p h (v, inr q) = ground (arith, h, v, q)

missing-Cause : (e : Env) (s : Slave) (p : Period) → Cause s p (missing (accounted e s p))
unfolding account_period
missing-Cause e s p =
    if-elim (Cause s p) (not (p.sync0 || s.sync.op_seen_sync0))
      (λ q. no_sync0 (λ r. ground (arith, q, or-of p.sync0 s.sync.op_seen_sync0 r)))
      (λ q.
        if-elim (Cause s p) (not (p.sm_event || s.sync.op_seen_sm) && ltb 0 s.al.sm2_sml)
          (λ r.
            no_data (or-cases p.sync0 s.sync.op_seen_sync0 (ground (arith, q)))
              (λ d. ground (arith, r, or-of p.sm_event s.sync.op_seen_sm d)) (ground (arith, r)))
          (λ r.
            bad_sync (or-cases p.sync0 s.sync.op_seen_sync0 (ground (arith, q)))
              (seen (p.sm_event || s.sync.op_seen_sm) r refl)))
  where
    seen :
        (b : Bool)
        → (not b && ltb 0 s.al.sm2_sml) ≡ false
        → b ≡ (p.sm_event || s.sync.op_seen_sm)
        → SeenData s p ⊎ (s.al.sm2_sml ≡ 0)
    seen true r q = inl (or-cases p.sm_event s.sync.op_seen_sm (sym q))
    seen false r q = inr (ground arith)

-- A period of a waiting request, with a hook after the change that keeps the transition. The time of good
-- sync in a row grows by the period or starts again. With 200 ms of it, and process data seen or no
-- outputs, the slave goes to OP with the outputs on. Else, at an age of 8.1 s, it goes to SAFEOP with the
-- error that names what was missing and the outputs as they were; and before that age it waits on, and
-- nothing but the account of the request has changed.
pub step_outcome :
    (e : Env) (s : Slave) (p : Period)
    → KeepsState e.al.post_state_change
    → s.sync.op_pending ≡ true
    → (v : ℕ) × SyncTime s p v
      × (GoesToOp s p v (step e s p) ⊎ (FallsBack s p v (step e s p) ⊎ WaitsOn s p v (step e s p)))
unfolding account_period
step_outcome e s p post h = (
  (accounted e s p).sync.op_valid_ns,
  accounted-SyncTime e s p,
  elim (step_ends e s p post h) [
    | inl g ↦ inl (record {
      ready = synchronised-IsReady e s p g.synchronised;
      status = g.status;
      output = g.output;
      decided = g.decided;
    })
    | inr other ↦ inr (elim other [
      | inl r ↦ inl (record {
        not_ready = not_ready_lem e s p r.unsynchronised;
        late = ground (arith, r.old);
        status = r.status;
        error = subst (Cause s p) (sym r.error) (missing-Cause e s p);
        app = r.app;
        decided = r.decided;
      })
      | inr c ↦ inr (record {
        not_ready = not_ready_lem e s p c.unsynchronised;
        early = ground (arith, c.young);
        only = c.same;
      })
    ])
  ],
)

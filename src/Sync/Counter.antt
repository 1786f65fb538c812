-- ===== src/Sync/Counter.antt =====
-- The sync error counter of ecat_slv_sync0_account (soes/ecat_slv.c) against its description there: a
-- missed period adds 3, a served one takes 1 off down to 0, and above the limit the slave leaves OP.
use soes.Base.{
  ℕ, ◌+◌, ◌-◌, ◌≤◌, ◌<◌, ◌≡◌, refl, ap, ◌∙◌, ◌⊎◌, inl, inr, Bool, true, false, ◌&&◌, arith, ltb,
  if-elim, has_bit, not, if◌then◌else◌,
}
use mathlib.Core.Path.{ap₂}
use soes.Base.Int.{ℤ, pos, add_ℕ, exceeds, to_int16}
use soes.Codes.AlErr
use soes.Slave.{Env, Slave, M, set_sync, esc_write, call_hook}
use soes.Bus.{al_error, al_status}
use soes.Al.{al_status_goto_error, safeop_error, pre_hook, post_hook, stopoutput, app_safe_state}
use soes.Bus.Frame.{sm_disable-OnlySm}
use soes.Sync.{uint16_max, counted, drain, count_period, sync0_account}

-- The count as the comment on the code describes it.
abbrev pub described : Bool → ℕ → ℕ
described true n = n - 1
described false n = n + 3

counted_lem : (seen : Bool) (n : ℕ) → counted seen (pos n) ≡ pos (described seen n)
unfolding counted drain add_ℕ
counted_lem true n = refl
counted_lem false n = refl

described_bound : (seen : Bool) (n : ℕ) → described seen n ≤ n + 3
described_bound true n = omega arith
described_bound false n = omega arith

to_int16-pos : (n : ℕ) → n < 32768 → to_int16 (pos n) ≡ pos n
unfolding to_int16
to_int16-pos n h = ground arith

-- What a fall to SAFEOP does to the fields that the account reads.
record Fell (s t : Slave) : Type 0 where
  status : t.al.status ≡ safeop_error
  code : t.al.error ≡ AlErr.sync_error
  counter : t.sync.counter ≡ s.sync.counter
  missed : t.sync.missed ≡ s.sync.missed
  error : t.sync.error ≡ s.sync.error
  limit : t.sync.limit ≡ s.sync.limit

app_safe_state-sync : (e : Env) (s : Slave) → (app_safe_state e s).1.sync ≡ s.sync
unfolding app_safe_state call_hook
app_safe_state-sync e s =
    if-elim (λ (m : M (Unit {0})). (m e s).1.sync ≡ s.sync) e.al.has_safe_state (λ _. refl)
      (λ _. refl)

stopoutput-sync : (e : Env) (s : Slave) → (stopoutput e s).1.sync ≡ s.sync
unfolding stopoutput
stopoutput-sync e s = app_safe_state-sync e _ ∙ (sm_disable-OnlySm 2 e _).sync

goto_error-Fell :
    (e : Env) (s : Slave) → Fell s (al_status_goto_error safeop_error AlErr.sync_error e s).1
unfolding al_status_goto_error pre_hook post_hook al_error al_status esc_write
goto_error-Fell e s =
    if-elim
      (λ (m : M (Unit {0})).
        Fell s
          (al_status safeop_error e
            (al_error AlErr.sync_error e
              (set_sync (λ y. record y { op_pending = false }) (m e s).1)).1).1)
      (has_bit s.al.app_state 2)
      (λ _.
        let h = stopoutput-sync e s in
        record {
          status = refl;
          code = refl;
          counter = ap (λ y. y.counter) h;
          missed = ap (λ y. y.missed) h;
          error = ap (λ y. y.error) h;
          limit = ap (λ y. y.limit) h;
        })
      (λ _. record {
        status = refl;
        code = refl;
        counter = refl;
        missed = refl;
        error = refl;
        limit = refl;
      })

-- The count of missed periods, in an uint16_t that stays at its greatest value.
abbrev pub missed_after : Bool → ℕ → ℕ
missed_after true n = n
missed_after false n = if ltb n 65535 then n + 1 else n

-- A period within the limit, and one above it.
pub record Within (seen : Bool) (n : ℕ) (s t : Slave) : Type 0 where
  pub within : described seen n ≤ s.sync.limit
  pub only :
      t
      ≡ set_sync
          (λ y. record y { counter = pos (described seen n); missed = missed_after seen y.missed })
          s
  pub counter : t.sync.counter ≡ pos (described seen n)
  pub al : t.al ≡ s.al
  pub error : t.sync.error ≡ s.sync.error
  pub limit : t.sync.limit ≡ s.sync.limit

pub record Tripped (seen : Bool) (n : ℕ) (s t : Slave) : Type 0 where
  pub above : s.sync.limit < described seen n
  pub missed : t.sync.missed ≡ missed_after seen s.sync.missed
  pub counter : t.sync.counter ≡ pos 0
  pub status : t.al.status ≡ safeop_error
  pub code : t.al.error ≡ AlErr.sync_error
  pub error : t.sync.error ≡ true
  pub limit : t.sync.limit ≡ s.sync.limit

-- With a limit set that is at most 32764 and a counter `n` between 0 and it, a period does what is
-- described: within the limit only the counter and the count of missed periods follow; above it the
-- counter goes back to 0, the missed period is counted, and the slave falls to SAFEOP with the
-- synchronisation error.
pub sync0_account_lem :
    (seen : Bool) (n : ℕ) (e : Env) (s : Slave)
    → 0 < s.sync.limit
    → s.sync.limit ≤ 32764
    → n ≤ s.sync.limit
    → s.sync.counter ≡ pos n
    → Within seen n s (sync0_account seen e s).1 ⊎ Tripped seen n s (sync0_account seen e s).1
unfolding sync0_account count_period
sync0_account_lem seen n e s set small low at =
    let c = counted seen s.sync.counter in
    let t = (count_period seen c e s).1 in
    let count : c ≡ pos (described seen n) = ap (counted seen) at ∙ counted_lem seen n in
    let stored : to_int16 c ≡ pos (described seen n) =
      ap to_int16 count ∙ to_int16-pos (described seen n) (omega (arith, described_bound seen n)) in
    let over : (ltb 0 s.sync.limit && exceeds s.sync.limit c)
        ≡ ltb s.sync.limit (described seen n) =
      ap (λ z. ltb 0 s.sync.limit && exceeds s.sync.limit z) count ∙ limited set in
    if-elim (λ (m : M (Unit {0})). Within seen n s (m e t).1 ⊎ Tripped seen n s (m e t).1)
      (ltb 0 s.sync.limit && exceeds s.sync.limit c)
      (λ p.
        let f = goto_error-Fell e (set_sync (λ y. record y { error = true; counter = pos 0 }) t) in
        inr (record {
          above = ground (arith, over);
          counter = f.counter;
          missed = f.missed ∙ counts seen;
          status = f.status;
          code = f.code;
          error = f.error;
          limit = f.limit;
        }))
      (λ p. inl (record {
        within = ground (arith, over);
        only = whole seen c stored;
        counter = stored;
        al = refl;
        error = refl;
        limit = refl;
      }))
  where
    counts :
        (b : Bool)
        → (if not b && ltb s.sync.missed uint16_max then s.sync.missed + 1 else s.sync.missed)
          ≡ missed_after b s.sync.missed
    counts true = refl
    counts false = refl

    whole :
        (b : Bool) (c : ℤ)
        → to_int16 c ≡ pos (described b n)
        → (count_period b c e s).1
          ≡ set_sync
              (λ y. record y { counter = pos (described b n); missed = missed_after b y.missed })
              s
    whole b c q = ap₂ (λ i k. set_sync (λ y. record y { counter = i; missed = k }) s) q (counts b)

    limited :
        0 < s.sync.limit
        → (ltb 0 s.sync.limit && ltb s.sync.limit (described seen n))
          ≡ ltb s.sync.limit (described seen n)
    limited h = ground arith

-- ===== src/Sync/Wrap.antt =====
-- Sequences of periods of ecat_slv_sync0_account (soes/ecat_slv.c), and the width of its counter.
use soes.Base.{
  ℕ, zero, suc, ◌+◌, ◌-◌, ◌*◌, ◌%◌, ◌≤◌, ◌<◌, ◌≡◌, refl, ap, ◌∙◌, inl, inr, Bool, true, false, ◌&&◌,
  List, [], ◌∷◌, arith, ltb, if◌then◌else◌, if-elim,
}
use soes.Base.Int.{ℤ, pos, negsuc, sub_ℕ, add_ℕ, exceeds, to_int16}
use mathlib.Core.Path.{ap₂}
use soes.Slave.{Env, Slave, M, set_sync}
use soes.Sync.{counted, drain, count_period, sync0_account}
use soes.Sync.Counter.{missed_after, sync0_account_lem}

-- Calls of the account, one for each period, the first one first.
abbrev pub accounts : Env → Slave → List Bool → Slave
accounts e s [] = s
accounts e s (seen ∷ later) = accounts e (sync0_account seen e s).1 later

abbrev pub missed_periods : ℕ → List Bool
missed_periods zero = []
missed_periods (suc k) = false ∷ missed_periods k

-- The count of missed periods after `k` more.
abbrev pub missed_more : ℕ → ℕ → ℕ
missed_more zero n = n
missed_more (suc k) n = missed_more k (missed_after false n)

-- After `k` missed periods within the limit.
pub record Tolerated (k count : ℕ) (s t : Slave) : Type 0 where
  pub only : t ≡ set_sync (λ y. record y { counter = pos count; missed = missed_more k y.missed }) s
  pub counter : t.sync.counter ≡ pos count
  pub al : t.al ≡ s.al
  pub error : t.sync.error ≡ s.sync.error
  pub limit : t.sync.limit ≡ s.sync.limit

-- From a counter at `n`, `k` missed periods in a row are tolerated while `n + 3 k` is within the limit:
-- nothing changes but the counter, which is then `n + 3 k`, and the count of missed periods.
pub burst-Tolerated :
    (k n : ℕ) (e : Env) (s : Slave)
    → 0 < s.sync.limit
    → s.sync.limit ≤ 32764
    → n + 3 * k ≤ s.sync.limit
    → s.sync.counter ≡ pos n
    → Tolerated k (n + 3 * k) s (accounts e s (missed_periods k))
burst-Tolerated zero n e s set small low at = record {
  only = ap (λ i. set_sync (λ y. record y { counter = i }) s) (ground (arith, at));
  counter = ground (arith, at);
  al = refl;
  error = refl;
  limit = refl;
}
burst-Tolerated (suc k) n e s set small low at =
    elim (sync0_account_lem false n e s set small (omega arith) at) [
      | inr t ↦ absurd (ground (arith, t.above))
      | inl w ↦
          let later =
            burst-Tolerated k (n + 3) e (sync0_account false e s).1 (ground (arith, w.limit))
              (ground (arith, w.limit)) (ground (arith, w.limit)) w.counter in
          record {
            only =
                later.only
                ∙ ap₂
                    (λ i u.
                      set_sync (λ y. record y { counter = i; missed = missed_more k y.missed }) u)
                    (ap pos (omega arith)) w.only;
            counter = later.counter ∙ ap pos (omega arith);
            al = later.al ∙ w.al;
            error = later.error ∙ w.error;
            limit = later.limit ∙ w.limit;
          }
    ]

-- A value of an int16_t.
abbrev pub IsInt16 : ℤ → Type 0
IsInt16 (pos n) = n < 32768
IsInt16 (negsuc n) = n < 32768

wrapped-IsInt16 : (r : ℕ) → r < 65536 → IsInt16 (if ltb r 32768 then pos r else negsuc (65535 - r))
wrapped-IsInt16 r h = if-elim IsInt16 (ltb r 32768) (λ p. ground arith) (λ p. ground arith)

wrapped_neg-IsInt16 :
    (r : ℕ) → r < 65536 → IsInt16 (if ltb r 32768 then negsuc r else pos (65535 - r))
wrapped_neg-IsInt16 r h = if-elim IsInt16 (ltb r 32768) (λ p. ground arith) (λ p. ground arith)

to_int16-IsInt16 : (z : ℤ) → IsInt16 (to_int16 z)
unfolding to_int16
to_int16-IsInt16 (pos n) = wrapped-IsInt16 (n % 65536) (omega arith)
to_int16-IsInt16 (negsuc n) = wrapped_neg-IsInt16 (n % 65536) (omega arith)

-- A counter of 16 bits stays below the greatest limits.
sub-not_exceeds : (limit a b : ℕ) → a ≤ limit → exceeds limit (sub_ℕ a b) ≡ false
sub-not_exceeds limit a b h =
    if-elim (λ z. exceeds limit z ≡ false) (ltb a b) (λ p. refl) (λ p. ground arith)

counted-not_exceeds :
    (limit : ℕ) (seen : Bool) (z : ℤ)
    → 32770 ≤ limit
    → IsInt16 z
    → exceeds limit (counted seen z) ≡ false
unfolding counted drain add_ℕ
counted-not_exceeds limit true (pos n) h i = ground arith
counted-not_exceeds limit true (negsuc n) h i = refl
counted-not_exceeds limit false (pos n) h i = ground arith
counted-not_exceeds limit false (negsuc n) h i = sub-not_exceeds limit 3 (suc n) (omega arith)

-- What a period leaves under such a limit.
pub record Untripped (s t : Slave) : Type 0 where
  pub counter : IsInt16 t.sync.counter
  pub al : t.al ≡ s.al
  pub error : t.sync.error ≡ s.sync.error
  pub limit : t.sync.limit ≡ s.sync.limit

sync0_account-Untripped :
    (seen : Bool) (e : Env) (s : Slave)
    → 32770 ≤ s.sync.limit
    → IsInt16 s.sync.counter
    → Untripped s (sync0_account seen e s).1
unfolding sync0_account count_period
sync0_account-Untripped seen e s h i =
    let c = counted seen s.sync.counter in
    let t = (count_period seen c e s).1 in
    let never = counted-not_exceeds s.sync.limit seen s.sync.counter h i in
    if-elim (λ (m : M (Unit {0})). Untripped s (m e t).1)
      (ltb 0 s.sync.limit && exceeds s.sync.limit c) (λ p. absurd (ground (arith, never)))
      (λ _. record { counter = to_int16-IsInt16 c; al = refl; error = refl; limit = refl })

-- Under a limit of 32770 or more no sequence of periods, all of them missed or not, ever trips: the AL
-- state and the synchronisation error stay as they were, since the 16-bit counter wraps before.
pub never_trips :
    (later : List Bool) (e : Env) (s : Slave)
    → 32770 ≤ s.sync.limit
    → IsInt16 s.sync.counter
    → Untripped s (accounts e s later)
never_trips [] e s h i = record { counter = i; al = refl; error = refl; limit = refl }
never_trips (seen ∷ later) e s h i =
    let one = sync0_account-Untripped seen e s h i in
    let rest =
      never_trips later e (sync0_account seen e s).1 (ground (arith, one.limit)) one.counter in
    record {
      counter = rest.counter;
      al = rest.al ∙ one.al;
      error = rest.error ∙ one.error;
      limit = rest.limit ∙ one.limit;
    }

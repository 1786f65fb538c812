-- ===== src/Mailbox/Cue.antt =====
-- How many buffers wait to be sent: the count that ESCvar.txcue stands for.
use soes.Base.{ℕ, zero, suc, ◌+◌, ◌≤◌, ◌<◌, ◌≡◌, refl, arith}
use soes.Slave.{MbxState, idle, outclaim, outreq, update}

abbrev pub weight : MbxState → ℕ
weight outclaim = 1
weight outreq = 1
weight _ = 0

-- The buffers 1 to `k` that are claimed or wait for the outbox.
pub cued : (ℕ → MbxState) → ℕ → ℕ
cued control zero = 0
cued control (suc k) = weight (control (suc k)) + cued control k

pub weight-le : (v : MbxState) → weight v ≤ 1
weight-le outclaim = omega arith
weight-le _ = omega arith

pub cued-le : (control : ℕ → MbxState) (k : ℕ) → cued control k ≤ k
unfolding cued
cued-le control zero = omega arith
cued-le control (suc k) = omega (arith, cued-le control k, weight-le (control (suc k)))

pub cued-update_above :
    (control : ℕ → MbxState) (n k : ℕ) (v : MbxState)
    → k < n
    → cued (update control n v) k ≡ cued control k
unfolding cued
cued-update_above control n zero v h = refl
cued-update_above control n (suc k) v h = ground (arith, cued-update_above control n k v)

pub cued-update_zero :
    (control : ℕ → MbxState) (k : ℕ) (v : MbxState) → cued (update control 0 v) k ≡ cued control k
unfolding cued
cued-update_zero control zero v = refl
cued-update_zero control (suc k) v = ground (arith, cued-update_zero control k v)

-- A change of one buffer changes the count by that buffer's part.
pub cued-update :
    (control : ℕ → MbxState) (n k : ℕ) (v : MbxState)
    → 0 < n
    → n ≤ k
    → cued (update control n v) k + weight (control n) ≡ cued control k + weight v
unfolding cued
cued-update control n zero v p h = absurd (omega arith)
cued-update control n (suc k) v p h =
    ground (arith, cued-update control n k v p, cued-update_above control n k v)

pub cued-idle :
    (control : ℕ → MbxState) (k : ℕ) → ((j : ℕ) → j ≤ k → control j ≡ idle) → cued control k ≡ 0
unfolding cued
cued-idle control zero h = refl
cued-idle control (suc k) h =
    ground (arith, h (suc k), cued-idle control k (λ j l. h j (omega arith)))

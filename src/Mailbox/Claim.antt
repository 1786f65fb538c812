-- ===== src/Mailbox/Claim.antt =====
-- Claiming a buffer (ESC_claimbuffer), and the error reply (MBX_error).
use soes.Base.{
  ℕ, ◌+◌, ◌-◌, ◌≤◌, ◌<◌, ◌≡◌, ◌⊎◌, refl, true, ◌==◌, if◌then◌else◌, if-elim, arith, Bool-cases, inl,
  inr, u8,
}
use soes.Base.Order.{scan_down-le, scan_down-wanted, scan_down-above}
use soes.Slave.{M, skip, ◌>>=◌, MbxState, idle, outclaim, outreq, Env, Slave, update}
use soes.Mailbox.Buffers.{claimbuffer, claimed, find_idle, queue_error, mbx_error, is_idle}
use soes.Mailbox.Cue.{cued-update, cued-le}
use soes.Mailbox.Valid.{IsValid, recue-IsValid}

abbrev pub IsValidAt : Env → Slave → Type 0
IsValidAt e s = IsValid e.buffers s.control s.mbx

find_idle-le : (e : Env) (s : Slave) → find_idle e s ≤ e.buffers - 1
unfolding find_idle
find_idle-le e s = scan_down-le _ _

is_idle-eq : (v : MbxState) → is_idle v ≡ true → v ≡ idle
is_idle-eq v h = ground arith

find_idle-idle : (e : Env) (s : Slave) → 0 < find_idle e s → s.control (find_idle e s) ≡ idle
unfolding find_idle
find_idle-idle e s h =
    is_idle-eq _ (scan_down-wanted (λ k. is_idle (s.control k)) (e.buffers - 1) h)

find_idle-last :
    (e : Env) (s : Slave) (k : ℕ) → k ≤ e.buffers - 1 → s.control k ≡ idle → k ≤ find_idle e s
unfolding find_idle
find_idle-last e s k h i =
    ground (arith, scan_down-above (λ j. is_idle (s.control j)) (e.buffers - 1) k)

-- ESC_claimbuffer returns 0 and changes nothing, or returns an idle buffer other than the inbox, within
-- the buffers there are, in the state with that buffer claimed.
pub claimbuffer-cases :
    (e : Env) (s : Slave)
    → (claimbuffer e s ≡ (0, s))
      ⊎ ((0 < find_idle e s)
          × (find_idle e s ≤ e.buffers - 1)
          × (s.control (find_idle e s) ≡ idle)
          × (claimbuffer e s ≡ (find_idle e s, claimed (find_idle e s) s)))
unfolding claimbuffer
claimbuffer-cases e s = elim (Bool-cases (find_idle e s == 0)) [
  | inl p ↦ inl (rw p)
  | inr p ↦
      let pos : 0 < find_idle e s = ground arith in
      inr (pos, find_idle-le e s, find_idle-idle e s pos, rw p)
]

pub claimbuffer-found :
    (e : Env) (s : Slave)
    → 0 < find_idle e s
    → claimbuffer e s ≡ (find_idle e s, claimed (find_idle e s) s)
unfolding claimbuffer
claimbuffer-found e s h =
    if-elim (λ (r : ℕ × Slave). r ≡ (find_idle e s, claimed (find_idle e s) s)) (find_idle e s == 0)
      (λ p. absurd (ground arith)) (λ _. refl)

-- While some buffer other than the inbox is idle, ESC_claimbuffer succeeds: it returns an idle buffer, the
-- last one there is, in the state with that buffer claimed.
pub claimbuffer_available :
    (e : Env) (s : Slave) (k : ℕ)
    → 0 < k
    → k ≤ e.buffers - 1
    → s.control k ≡ idle
    → let n = find_idle e s in
      (k ≤ n) × (n ≤ e.buffers - 1) × (s.control n ≡ idle) × (claimbuffer e s ≡ (n, claimed n s))
claimbuffer_available e s k p h i =
    let least : k ≤ find_idle e s = find_idle-last e s k h i in
    let pos : 0 < find_idle e s = omega arith in
    (least, find_idle-le e s, find_idle-idle e s pos, claimbuffer-found e s pos)

-- An idle buffer leaves room in the count, so `txcue++` does not wrap.
cue_room :
    (e : Env) (s : Slave) (n : ℕ)
    → IsValidAt e s
    → 0 < n
    → n ≤ e.buffers - 1
    → s.control n ≡ idle
    → u8 (s.mbx.txcue + 1) ≡ s.mbx.txcue + 1
cue_room e s n v p h i = ground (
  arith,
  v.few,
  v.cue,
  cued-update s.control n (e.buffers - 1) outclaim p h,
  cued-le (update s.control n outclaim) (e.buffers - 1),
)

pub claimed-IsValid :
    (e : Env) (s : Slave) (n : ℕ)
    → IsValidAt e s
    → 0 < n
    → n ≤ e.buffers - 1
    → s.control n ≡ idle
    → IsValidAt e (claimed n s)
unfolding claimed
claimed-IsValid e s n v p h i =
    recue-IsValid e.buffers s.control s.mbx _ v n outclaim p h (ground arith) refl refl refl refl
      (ground (arith, cue_room e s n v p h i))

pub claimbuffer-IsValid : (e : Env) (s : Slave) → IsValidAt e s → IsValidAt e (claimbuffer e s).1
claimbuffer-IsValid e s v = elim (claimbuffer-cases e s) [
  | inl q ↦ rw q v
  | inr (p, h, i, q) ↦ rw q (claimed-IsValid e s (find_idle e s) v p h i)
]

-- A claimed buffer is handed over for sending.
pub queue-IsValid :
    (e : Env) (s : Slave) (n : ℕ)
    → IsValidAt e s
    → 0 < n
    → n ≤ e.buffers - 1
    → s.control n ≡ idle
    → IsValid e.buffers (update (claimed n s).control n outreq) (claimed n s).mbx
unfolding claimed
queue-IsValid e s n v p h i =
    recue-IsValid e.buffers _ _ (claimed n s).mbx (claimed-IsValid e s n v p h i) n outreq p h
      (ground arith) refl refl refl refl (ground arith)

-- The shape of every reply: what is done with a buffer, or without one.
pub reply-IsValid :
    {A : Type 0} (none : M A) (some : ℕ → M A) (e : Env) (s : Slave)
    → IsValidAt e (none e s).1
    → ((n : ℕ)
        → 0 < n
        → n ≤ e.buffers - 1
        → s.control n ≡ idle
        → IsValidAt e (some n e (claimed n s)).1)
    → IsValidAt e ((claimbuffer >>= λ n. if n == 0 then none else some n) e s).1
reply-IsValid {A} none some e s v f = elim (claimbuffer-cases e s) [
  | inl q ↦ rw q v
  | inr (p, h, i, q) ↦ rw q (
      if-elim (λ (m : M A). IsValidAt e (m e (claimed (find_idle e s) s)).1) (find_idle e s == 0)
        (λ z. absurd (ground arith)) (λ z. f (find_idle e s) p h i))
]

pub mbx_error-IsValid :
    (error : ℕ) (e : Env) (s : Slave) → IsValidAt e s → IsValidAt e (mbx_error error e s).1
unfolding mbx_error queue_error
mbx_error-IsValid error e s v =
    reply-IsValid skip (queue_error error) e s v (λ n p h i. queue-IsValid e s n v p h i)

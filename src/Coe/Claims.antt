-- ===== src/Coe/Claims.antt =====
-- The buffers of the mailbox layer while a service of soes/esc_coe.c fills its reply.
use soes.Base.{ℕ, ◌-◌, ◌≤◌, ◌<◌, ◌≡◌, refl, ap, sym, ◌∙◌, Bool, arith, inl, inr}
use mathlib.Core.Path.{subst}
use soes.Slave.{M, ◌>>=◌, MbxState, idle, outclaim, outreq, Env, Slave, modify}
use soes.Slave.Hoare.{Takes, Holds, weaken-Takes}
use soes.Base.Order.{scan_down}
use soes.Mailbox.{claimbuffer, claimed, find_idle, is_idle}
use soes.Mailbox.Valid.{IsValid, recue-IsValid, same-IsValid, inbox-IsValid}
use soes.Mailbox.Claim.{IsValidAt, claimbuffer-cases, claimbuffer-found, claimed-IsValid}
use soes.Coe.Reply.{queue, release_inbox}

-- The mailbox layer's invariant, alone; with buffer `n` claimed; and with a reply queued in it.
abbrev pub Ready : Holds
Ready e s = IsValidAt e s

abbrev pub Claims : ℕ → Holds
Claims n e s = IsValidAt e s × (0 < n) × (n ≤ e.buffers - 1) × (s.control n ≡ outclaim)

abbrev pub Replied : ℕ → Holds
Replied n e s = IsValidAt e s × (0 < n) × (n ≤ e.buffers - 1) × (s.control n ≡ outreq)

-- The inbox is free again.
abbrev pub Released : Holds
Released e s = (s.control 0 ≡ idle) × (s.mbx.xoe ≡ 0)

-- The same with the inbox free again.
abbrev pub Rest : Holds
Rest e s = IsValidAt e s × Released e s

abbrev pub Done : ℕ → Holds
Done n e s = Replied n e s × Released e s

pub to-Rest : (n : ℕ) (e : Env) (s : Slave) → Done n e s → Rest e s
to-Rest n e s d = (d.0.0, d.1)

-- What the invariant is about.
abbrev pub View : Type 0
View = (ℕ → MbxState) × ℕ × ℕ × Bool × ℕ

abbrev pub view : Slave → View
view s = (s.control, s.mbx.posted, s.mbx.kept, s.mbx.free, s.mbx.txcue)

abbrev pub IsSteady : Holds → Type 0
IsSteady P = (e : Env) (s t : Slave) → view t ≡ view s → P e s → P e t

pub valid-IsSteady : IsSteady Ready
valid-IsSteady e s t q v =
    subst (λ c. IsValid e.buffers c t.mbx) (sym (ap (λ (w : View). w.0) q))
      (same-IsValid e.buffers s.control s.mbx t.mbx v (ap (λ (w : View). w.1) q)
        (ap (λ (w : View). w.2) q) (inl (ap (λ (w : View). w.3) q)) (ap (λ (w : View). w.4) q))

pub claims-IsSteady : (n : ℕ) → IsSteady (Claims n)
claims-IsSteady n e s t q (v, p, h, c) =
    (valid-IsSteady e s t q v, p, h, ap (λ (w : View). w.0 n) q ∙ c)

pub replied-IsSteady : (n : ℕ) → IsSteady (Replied n)
replied-IsSteady n e s t q (v, p, h, c) =
    (valid-IsSteady e s t q v, p, h, ap (λ (w : View). w.0 n) q ∙ c)

-- A program that changes nothing of that.
pub steady-Takes :
    {A : Type 0} {P : Holds} {m : M A}
    → IsSteady P
    → ((e : Env) (s : Slave) → view (m e s).1 ≡ view s)
    → Takes P m P
steady-Takes h k = record { after = λ e s p. h e s _ (k e s) p }

pub modify-Takes :
    {P : Holds}
    → IsSteady P
    → (f : Slave → Slave) → ((s : Slave) → view (f s) ≡ view s)
    → Takes P (modify f) P
modify-Takes h f k = record { after = λ e s p. h e s _ (k s) p }

claimed_state : (s : Slave) (n : ℕ) → (claimed n s).control n ≡ outclaim
unfolding claimed
claimed_state s n = ground arith

-- ESC_claimbuffer gives no buffer, or a claimed one.
pub claimed-Takes :
    {A : Type 0} {Q : Holds} {f : ℕ → M A}
    → Takes Ready (f 0) Q
    → ((n : ℕ) → Takes (Claims n) (f n) Q)
    → Takes Ready (claimbuffer >>= f) Q
claimed-Takes {A} {Q} {f} x g = record {
  after = λ e s v. elim (claimbuffer-cases e s) [
    | inl q ↦ subst (λ (r : ℕ × Slave). Q e (f (r.0) e (r.1)).1) (sym q) (x.after e s v)
    | inr (p, h, i, q) ↦
        subst (λ (r : ℕ × Slave). Q e (f (r.0) e (r.1)).1) (sym q)
          ((g (find_idle e s)).after e _
            (claimed-IsValid e s (find_idle e s) v p h i, p, h, claimed_state s (find_idle e s)))
  ];
}

positive : (n k : ℕ) → 0 < n → k ≡ n → 0 < k
positive n k p q = omega arith

-- Buffer `n` is the one that ESC_claimbuffer will give.
abbrev pub Available : ℕ → Holds
Available n e s = IsValidAt e s × (0 < n) × (find_idle e s ≡ n)

find_idle_congr : (e : Env) (s t : Slave) → t.control ≡ s.control → find_idle e t ≡ find_idle e s
unfolding find_idle
find_idle_congr e s t q =
    ap (λ (c : ℕ → MbxState). scan_down (λ k. is_idle (c k)) (e.buffers - 1)) q

pub available-IsSteady : (n : ℕ) → IsSteady (Available n)
available-IsSteady n e s t q (v, p, c) =
    (valid-IsSteady e s t q v, p, find_idle_congr e s t (ap (λ (w : View). w.0) q) ∙ c)

-- What a service makes of the buffers when it claims one for its reply: the invariant is kept; and if
-- a buffer is available, then the reply is queued in it. Where the service ends with the release of the
-- inbox, `D` says that too.
pub record Service (P Q D : Holds) : Type 1 where
  pub steady : IsSteady P
  pub claim :
      {A : Type 0} {f : ℕ → M A}
      → Takes Ready (f 0) Ready
      → ((n : ℕ) → Takes (Claims n) (f n) (Replied n))
      → Takes P (claimbuffer >>= f) Q
  pub claim_done :
      {A : Type 0} {f : ℕ → M A}
      → Takes Ready (f 0) Rest
      → ((n : ℕ) → Takes (Claims n) (f n) (Done n))
      → Takes P (claimbuffer >>= f) D
  pub release : Takes Q release_inbox D

-- The claimed buffer is queued.
pub queue-Takes : (n : ℕ) → Takes (Claims n) (queue n) (Replied n)
unfolding queue
queue-Takes n = record {
  after = λ e s (v, p, h, c). (
    recue-IsValid e.buffers s.control s.mbx s.mbx v n outreq p h (ground arith) refl refl refl refl
        (ground arith),
    p,
    h,
    ground arith,
  );
}

-- A queued buffer may be queued again.
pub requeue-Takes : (n : ℕ) → Takes (Replied n) (queue n) (Replied n)
unfolding queue
requeue-Takes n = record {
  after = λ e s (v, p, h, c). (
    recue-IsValid e.buffers s.control s.mbx s.mbx v n outreq p h (ground arith) refl refl refl refl
        (ground arith),
    p,
    h,
    ground arith,
  );
}

pub release-Takes : Takes Ready release_inbox Ready
unfolding release_inbox
release-Takes = record {
  after = λ e s v. inbox-IsValid e.buffers s.control s.mbx _ v idle (inl refl) refl refl refl refl;
}

pub release_claimed-Takes : (n : ℕ) → Takes (Claims n) release_inbox (Claims n)
unfolding release_inbox
release_claimed-Takes n = record {
  after = λ e s (v, p, h, c). (release-Takes.after e s v, p, h, ground arith);
}

pub release_replied-Takes : (n : ℕ) → Takes (Replied n) release_inbox (Replied n)
unfolding release_inbox
release_replied-Takes n = record {
  after = λ e s (v, p, h, c). (release-Takes.after e s v, p, h, ground arith);
}

pub release-Released : {P : Holds} → Takes P release_inbox Released
unfolding release_inbox
release-Released = record { after = λ e s p. (ground arith, refl) }

-- The inbox is released at the end.
pub rest-Takes : Takes Ready release_inbox Rest
rest-Takes = record {
  after = λ e s v. (release-Takes.after e s v, (release-Released {P = Ready}).after e s v);
}

pub done-Takes : (n : ℕ) → Takes (Replied n) release_inbox (Done n)
done-Takes n = record {
  after = λ e s r.
      ((release_replied-Takes n).after e s r, (release-Released {P = Replied n}).after e s r);
}

-- The available buffer is claimed.
available-Takes :
    {A : Type 0} {Q : ℕ → Holds} {f : ℕ → M A} (n : ℕ)
    → ((k : ℕ) → Takes (Claims k) (f k) (Q k))
    → Takes (Available n) (claimbuffer >>= f) (Q n)
available-Takes {A} {Q} {f} n g = record {
  after = λ e s (v, p, c). elim (claimbuffer-cases e s) [
    | inl q ↦ absurd (
        ground (
          arith,
          ap (λ (r : ℕ × Slave). r.0)
              (sym (claimbuffer-found e s (positive n (find_idle e s) p c)) ∙ q),
        ))
    | inr (p', h, i, q) ↦
        subst (λ (r : ℕ × Slave). Q n e (f (r.0) e (r.1)).1) (sym q)
          (subst (λ k. Q k e (f (find_idle e s) e (claimed (find_idle e s) s)).1) c
            ((g (find_idle e s)).after e _ (
              claimed-IsValid e s (find_idle e s) v p' h i,
              p',
              h,
              claimed_state s (find_idle e s),
            )))
  ];
}

pub ready-Service : Service Ready Ready Rest
ready-Service = record {
  steady = valid-IsSteady;
  claim = λ {A} {f} x g. claimed-Takes x (λ n. weaken-Takes (λ e s c. c) (λ e s r. r.0) (g n));
  claim_done =
      λ {A} {f} x g. claimed-Takes x (λ n. weaken-Takes (λ e s c. c) (λ e s r. (r.0.0, r.1)) (g n));
  release = rest-Takes;
}

pub available-Service : (n : ℕ) → Service (Available n) (Replied n) (Done n)
available-Service n = record {
  steady = available-IsSteady n;
  claim = λ {A} {f} x g. available-Takes {Q = Replied} n g;
  claim_done = λ {A} {f} x g. available-Takes {Q = Done} n g;
  release = done-Takes n;
}

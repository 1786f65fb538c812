-- ===== src/Coe/Replies.antt =====
-- The replies of soes/esc_coe.c and the mailbox layer: SDO_abort, set_state_idle, ESC_SDO_complete.
use soes.Base.{ℕ, ◌<◌, ◌≡◌, ◌≢◌, true, false, not, ◌==◌, if◌then◌else◌, if-elim, arith}
use soes.Codes.Coe
use soes.Slave.{M, ◌>>=◌, Env, Slave, skip}
use soes.Slave.Hoare.{Takes, Holds, seq-Takes, branch-Takes, skip-Takes, split-Takes}
use soes.Coe.{queue, queue_sdo, sdo_abort, set_state_idle}
use soes.Coe.Claims.{
  Ready, Claims, Replied, IsSteady, claims-IsSteady, replied-IsSteady, requeue-Takes, Service,
  ready-Service, Done, Rest, queue-Takes, rest-Takes, done-Takes,
}
use soes.Coe.Steps.{init_coesdo-Takes, set_size-Takes}

-- A program that may queue buffer `n`: it is claimed, or queued already.
module _ {P : Holds} (n : ℕ) (h : IsSteady P) (q : Takes P (queue n) (Replied n)) where
  pub owned-Takes :
      (service command index subindex size : ℕ)
      → Takes P (queue_sdo service command index subindex size n) (Replied n)
  unfolding queue_sdo
  owned-Takes service command index subindex size =
      seq-Takes (init_coesdo-Takes h n service command index subindex)
        (seq-Takes (set_size-Takes h n size) q)

pub queue_sdo-Takes :
    (service command index subindex size n : ℕ)
    → Takes (Claims n) (queue_sdo service command index subindex size n) (Replied n)
queue_sdo-Takes service command index subindex size n =
    owned-Takes n (claims-IsSteady n) (queue-Takes n) service command index subindex size

pub positive : (n : ℕ) → 0 < n → (n == 0) ≢ true
positive n h z = ground arith

-- What is done with a claimed buffer, after the test that there is one.
pub given-Takes :
    {A : Type 0} {Q : Holds} (x : M A) {y : M A} (n : ℕ)
    → Takes (Claims n) y Q
    → Takes (Claims n) (if n == 0 then x else y) Q
given-Takes {A} {Q} x n h = record {
  after = λ e s c.
      if-elim (λ (m : M A). Q e (m e s).1) (n == 0) (λ z. absurd (positive n (c.1) z))
        (λ _. h.after e s c);
}

abort_owned-Takes :
    {P : Holds} (n index subindex code : ℕ)
    → IsSteady P
    → Takes P (queue n) (Replied n)
    → ((e : Env) (s : Slave) → P e s → 0 < n)
    → Takes P (sdo_abort n index subindex code) (Replied n)
unfolding sdo_abort
abort_owned-Takes {P} n index subindex code h q pos =
    let reply : ℕ → M (Unit {0}) =
      queue_sdo Coe.sdo_request Coe.command_sdo_abort index subindex code in
    record {
      after = λ e s c.
          if-elim (λ (m : M ℕ). Replied n e ((m >>= λ k. if k == 0 then skip else reply k) e s).1)
            (n == 0) (λ z. absurd (positive n (pos e s c) z))
            (λ _.
              if-elim (λ (m : M (Unit {0})). Replied n e (m e s).1) (n == 0)
                (λ z. absurd (positive n (pos e s c) z))
                (λ _.
                  (owned-Takes n h q Coe.sdo_request Coe.command_sdo_abort index subindex
                      code).after
                    e s c));
    }

pub abort_claimed-Takes :
    (n index subindex code : ℕ) → Takes (Claims n) (sdo_abort n index subindex code) (Replied n)
abort_claimed-Takes n index subindex code =
    abort_owned-Takes n index subindex code (claims-IsSteady n) (queue-Takes n) (λ e s c. c.1)

pub abort_replied-Takes :
    (n index subindex code : ℕ) → Takes (Replied n) (sdo_abort n index subindex code) (Replied n)
abort_replied-Takes n index subindex code =
    abort_owned-Takes n index subindex code (replied-IsSteady n) (requeue-Takes n) (λ e s c. c.1)

pub idle_claimed-Takes :
    (n index subindex code : ℕ)
    → (code == 0) ≡ false
    → Takes (Claims n) (set_state_idle n index subindex code) (Done n)
unfolding set_state_idle
idle_claimed-Takes n index subindex code h =
    seq-Takes
      (split-Takes (not (code == 0)) (λ _. abort_claimed-Takes n index subindex code)
        (λ z. absurd (ground arith)))
      (done-Takes n)

module _ {P Q D : Holds} (v : Service P Q D) where
  pub abort-Takes : (index subindex code : ℕ) → Takes P (sdo_abort 0 index subindex code) Q
  unfolding sdo_abort
  abort-Takes index subindex code =
      let reply : ℕ → M (Unit {0}) =
        queue_sdo Coe.sdo_request Coe.command_sdo_abort index subindex code in
      v.claim {f = λ n. if n == 0 then skip else reply n} skip-Takes (λ n.
        given-Takes skip n
          (queue_sdo-Takes Coe.sdo_request Coe.command_sdo_abort index subindex code n))

  -- With an abort code, set_state_idle replies.
  pub idle-Takes :
      (index subindex code : ℕ)
      → (code == 0) ≡ false
      → Takes P (set_state_idle 0 index subindex code) D
  unfolding set_state_idle
  idle-Takes index subindex code h =
      seq-Takes
        (split-Takes (not (code == 0)) (λ _. abort-Takes index subindex code)
          (λ z. absurd (ground arith)))
        v.release

-- Without one, it only releases the inbox.
pub idle_any-Takes :
    (index subindex code : ℕ) → Takes Ready (set_state_idle 0 index subindex code) Rest
unfolding set_state_idle
idle_any-Takes index subindex code =
    seq-Takes
      (branch-Takes (not (code == 0)) (abort-Takes ready-Service index subindex code) skip-Takes)
      rest-Takes

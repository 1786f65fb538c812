-- ===== src/Coe/Content.antt =====
-- What the replies of soes/esc_coe.c contain, as the master reads them.
use soes.Base.{ℕ, ◌+◌, ◌*◌, ◌/◌, ◌<◌, ◌≡◌, refl, sym, ◌==◌, if◌then◌else◌, if-elim, arith}
use mathlib.Core.Path.{subst}
use soes.Base.Memory.{Mem, load8, load16, load32, store8, store16, store32, store_low}
use soes.Slave.{Env, Slave, M, ◌>>=◌, outreq}
use soes.Mailbox.{claimbuffer, claimed, find_idle}
use soes.Mailbox.Claim.{claimbuffer-found}
use soes.Coe.{sdo_header, queue_sdo, init_coesdo, set_size, queue}

-- A reply at offset `base`: its service, command, index, subindex and 32-bit field.
abbrev pub service_at : Mem → ℕ → ℕ
service_at m base = load16 m (base + 6) / 4096

abbrev pub command_at : Mem → ℕ → ℕ
command_at m base = load8 m (base + 8)

abbrev pub index_at : Mem → ℕ → ℕ
index_at m base = load16 m (base + 9)

abbrev pub subindex_at : Mem → ℕ → ℕ
subindex_at m base = load8 m (base + 11)

abbrev pub size_at : Mem → ℕ → ℕ
size_at m base = load32 m (base + 12)

-- What a reply says.
pub record Says (m : Mem) (base service command index subindex size : ℕ) : Type 0 where
  pub service_ok : service_at m base ≡ service
  pub command_ok : command_at m base ≡ command
  pub index_ok : index_at m base ≡ index
  pub subindex_ok : subindex_at m base ≡ subindex
  pub size_ok : size_at m base ≡ size

-- The fields have the widths of a `_COEsdo`.
abbrev pub Fits : (service command index subindex size : ℕ) → Type 0
Fits service command index subindex size =
    (service < 16) × (command < 256) × (index < 65536) × (subindex < 256) × (size < 4294967296)

header-Says :
    (m : Mem) (base length service command index subindex size : ℕ)
    → Fits service command index subindex size
    → Says
        (store32 (sdo_header base length service command index subindex m) (base + 12) size)
        base
        service
        command
        index
        subindex
        size
unfolding sdo_header load8 load16 load32 store8 store16 store32 store_low
header-Says m base length service command index subindex size (a, b, c, d, f) = record {
  service_ok = ground arith;
  command_ok = ground arith;
  index_ok = ground arith;
  subindex_ok = ground arith;
  size_ok = ground arith;
}

-- A reply as it is queued.
pub queue_sdo-Says :
    (e : Env) (s : Slave) (n service command index subindex size : ℕ)
    → Fits service command index subindex size
    → let t = (queue_sdo service command index subindex size n e s).1 in
      (t.control n ≡ outreq)
      × Says t.mem (n * s.mbx.size) service command index subindex size
      × (t.sdo_held ≡ s.sdo_held)
      × (t.ram ≡ s.ram)
unfolding queue_sdo init_coesdo set_size queue
queue_sdo-Says e s n service command index subindex size h = (
  ground arith,
  header-Says s.mem (n * s.mbx.size) 10 service command index subindex size h,
  refl,
  refl,
)

-- A reply in the buffer that ESC_claimbuffer gives.
pub claimed-found :
    (x : M (Unit {0})) (f : ℕ → M (Unit {0})) (e : Env) (s : Slave)
    → 0 < find_idle e s
    → (claimbuffer >>= λ n. if n == 0 then x else f n) e s
      ≡ f (find_idle e s) e (claimed (find_idle e s) s)
claimed-found x f e s h =
    subst
      (λ (r : ℕ × Slave).
        (if r.0 == 0 then x else f (r.0)) e (r.1) ≡ f (find_idle e s) e (claimed (find_idle e s) s))
      (sym (claimbuffer-found e s h))
      (if-elim
        (λ (m : M (Unit {0})).
          m e (claimed (find_idle e s) s) ≡ f (find_idle e s) e (claimed (find_idle e s) s))
        (find_idle e s == 0) (λ z. absurd (ground arith)) (λ _. refl))

-- A reply that was sent by way of ESC_claimbuffer.
abbrev pub Sent : (service command index subindex size : ℕ) → Slave → ℕ → Slave → Type 0
Sent service command index subindex size s n t =
    (t.control n ≡ outreq)
    × Says t.mem (n * s.mbx.size) service command index subindex size
    × (t.sdo_held ≡ s.sdo_held)
    × (t.ram ≡ s.ram)

pub claimed-Sent :
    (x : M (Unit {0})) (e : Env) (s : Slave) (service command index subindex size : ℕ)
    → 0 < find_idle e s
    → Fits service command index subindex size
    → Sent service command index subindex size s
        (find_idle e s)
        ((claimbuffer >>= λ n.
            if n == 0 then x else queue_sdo service command index subindex size n)
          e s).1
unfolding claimed
claimed-Sent x e s service command index subindex size h f =
    subst
      (λ (r : Unit {0} × Slave). Sent service command index subindex size s (find_idle e s) (r.1))
      (sym (claimed-found x (queue_sdo service command index subindex size) e s h))
      (queue_sdo-Says e (claimed (find_idle e s) s) (find_idle e s) service command index subindex
        size f)

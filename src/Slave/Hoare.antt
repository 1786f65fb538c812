-- ===== src/Slave/Hoare.antt =====
-- Programs over the slave's state and what holds before and after them.
use soes.Base.{Bool, true, false, ◌≡◌, if◌then◌else◌, if-elim}
use soes.Slave.Types.{Slave, Env}
use soes.Slave.Program.{M, ◌>>=◌, ◌>>◌, pure, gets, asks, when, skip}

abbrev pub Holds : Type 1
Holds = Env → Slave → Type 0

-- Where `P` holds before the program, `Q` holds after it.
pub record Takes {A : Type 0} (P : Holds) (m : M A) (Q : Holds) : Type 0 where
  pub after : (e : Env) (s : Slave) → P e s → Q e (m e s).1

pub bind-Takes :
    {A B : Type 0} {P Q R : Holds} {m : M A} {f : A → M B}
    → Takes P m Q
    → ((a : A) → Takes Q (f a) R)
    → Takes P (m >>= f) R
bind-Takes {A} {B} {P} {Q} {R} {m} {f} h k = record {
  after = λ e s p. (k (m e s).0).after e (m e s).1 (h.after e s p);
}

pub seq-Takes :
    {B : Type 0} {P Q R : Holds} {m : M (Unit {0})} {k : M B}
    → Takes P m Q
    → Takes Q k R
    → Takes P (m >> k) R
seq-Takes h k = record { after = λ e s p. k.after e _ (h.after e s p) }

pub gets-Takes : {A : Type 0} {P : Holds} {f : Slave → A} → Takes P (gets f) P
gets-Takes = record { after = λ e s p. p }

pub asks-Takes : {A : Type 0} {P : Holds} {f : Env → A} → Takes P (asks f) P
asks-Takes = record { after = λ e s p. p }

pub pure-Takes : {A : Type 0} {P : Holds} {a : A} → Takes P (pure a) P
pure-Takes = record { after = λ e s p. p }

pub branch-Takes :
    {A : Type 0} {P Q : Holds} (b : Bool) {x y : M A}
    → Takes P x Q
    → Takes P y Q
    → Takes P (if b then x else y) Q
branch-Takes {A} {P} {Q} b {x} {y} h k = if-elim (λ (m : M A). Takes P m Q) b (λ _. h) (λ _. k)

pub skip-Takes : {P : Holds} → Takes P skip P
skip-Takes = record { after = λ e s p. p }

pub when-Takes : {P : Holds} (b : Bool) {m : M (Unit {0})} → Takes P m P → Takes P (when b m) P
when-Takes b h = branch-Takes b h skip-Takes

pub weaken-Takes :
    {A : Type 0} {P P' Q Q' : Holds} {m : M A}
    → ((e : Env) (s : Slave) → P' e s → P e s)
    → ((e : Env) (s : Slave) → Q e s → Q' e s)
    → Takes P m Q
    → Takes P' m Q'
weaken-Takes f g h = record { after = λ e s p. g e _ (h.after e s (f e s p)) }

-- What holds of every state.
abbrev pub Any : Holds
Any e s = Unit {0}

pub any-Takes : {A : Type 0} {P : Holds} {m : M A} → Takes P m Any
any-Takes = record { after = λ e s p. tt }

pub split-Takes :
    {A : Type 0} {P Q : Holds} (b : Bool) {x y : M A}
    → (b ≡ true → Takes P x Q)
    → (b ≡ false → Takes P y Q)
    → Takes P (if b then x else y) Q
split-Takes {A} {P} {Q} b h k = if-elim (λ (m : M A). Takes P m Q) b h k

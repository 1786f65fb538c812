-- ===== src/Bus/Frame.antt =====
-- What the register accesses of soes/esc.c leave alone.
use soes.Base.{ℕ, zero, suc, ◌%◌, ◌≡◌, ◌≢◌, arith, ◌==◌, if◌then◌else◌, Bool-cases, inl, inr}
use soes.Slave.{Env, Slave, esc_read, esc_write, set_sm}
use soes.Bus.Regs.{wait_pdi, sm_read_pdi, sm_write_pdi, sm_enable, sm_disable}

-- An operation on SyncManager `n` changes the bus, and the shadow of `n` in what the controller
-- answered.
pub record OnlySm (n : ℕ) (s t : Slave) : Type 0 where
  pub mem : t.mem ≡ s.mem
  pub control : t.control ≡ s.control
  pub mbx : t.mbx ≡ s.mbx
  pub al : t.al ≡ s.al
  pub foe : t.foe ≡ s.foe
  pub sync : t.sync ≡ s.sync
  pub held : t.sdo_held ≡ s.sdo_held
  pub others : (j : ℕ) → n ≢ j → t.sm j ≡ s.sm j

OnlySm-trans : {n : ℕ} {s t u : Slave} → OnlySm n s t → OnlySm n t u → OnlySm n s u
OnlySm-trans a b = record {
  mem = cc (a.mem, b.mem);
  control = cc (a.control, b.control);
  mbx = cc (a.mbx, b.mbx);
  al = cc (a.al, b.al);
  foe = cc (a.foe, b.foe);
  sync = cc (a.sync, b.sync);
  held = cc (a.held, b.held);
  others = λ j h. cc (a.others j h, b.others j h);
}

sm_read_pdi-OnlySm : (n : ℕ) (e : Env) (s : Slave) → OnlySm n s (sm_read_pdi n e s).1
unfolding sm_read_pdi esc_read
sm_read_pdi-OnlySm n e s = ground arith

wait_pdi-OnlySm :
    (fuel n wanted : ℕ) (e : Env) (s : Slave) → OnlySm n s (wait_pdi fuel n wanted e s).1
unfolding wait_pdi
wait_pdi-OnlySm zero n wanted e s = sm_read_pdi-OnlySm n e s
wait_pdi-OnlySm (suc fuel) n wanted e s =
    elim (Bool-cases (((sm_read_pdi n e s).1.sm n).act_pdi % 2 == wanted)) [
      | inl p ↦ rw (p, if◌then◌else◌) (sm_read_pdi-OnlySm n e s)
      | inr p ↦
          rw (p, if◌then◌else◌)
            (OnlySm-trans (sm_read_pdi-OnlySm n e s)
              (wait_pdi-OnlySm fuel n wanted e (sm_read_pdi n e s).1))
    ]

asked-OnlySm :
    (n v : ℕ) (e : Env) (s : Slave)
    → OnlySm n s (sm_write_pdi n e (set_sm n (λ r. record r { act_pdi = v }) s)).1
unfolding sm_write_pdi esc_write
asked-OnlySm n v e s = ground arith

pub sm_enable-OnlySm : (n : ℕ) (e : Env) (s : Slave) → OnlySm n s (sm_enable n e s).1
unfolding sm_enable
sm_enable-OnlySm n e s = OnlySm-trans (asked-OnlySm n _ e s) (wait_pdi-OnlySm e.patience n 0 e _)

pub sm_disable-OnlySm : (n : ℕ) (e : Env) (s : Slave) → OnlySm n s (sm_disable n e s).1
unfolding sm_disable
sm_disable-OnlySm n e s = OnlySm-trans (asked-OnlySm n _ e s) (wait_pdi-OnlySm e.patience n 1 e _)

-- ===== src/Bus/Regs.antt =====
-- soes/esc.c: ESC_ALerror, ESC_ALstatus, ESC_SMack, ESC_SMstatus, ESC_SMwritepdi, ESC_SMreadpdi,
-- ESC_SMenable, ESC_SMdisable, ESC_address, and the reads of whole SyncManagers.
use soes.Base.{
  ℕ, zero, suc, ◌+◌, ◌*◌, ◌/◌, ◌%◌, List, [], ◌∷◌, ◌==◌, if◌then◌else◌, u16, set_bit, clear_bit,
}
use soes.Base.Memory.{Mem, load8, load16}
use soes.Codes.Reg
use soes.Slave.{
  SyncManager, M, ◌>>=◌, ◌>>◌, skip, gets, asks, modify, esc_read, esc_write, set_al, set_sm,
}

-- The two bytes of a 16-bit register.
abbrev pub bytes16 : ℕ → List ℕ
bytes16 v = v % 256 ∷ (v / 256 % 256) ∷ []

-- The bit fields ECsm, ECrep and MBXstat of `_ESCsm`, and a write of PDIrep.
abbrev pub ec_sm : SyncManager → ℕ
ec_sm r = r.act_esc % 2

abbrev pub ec_rep : SyncManager → ℕ
ec_rep r = r.act_esc / 2 % 2

abbrev pub mbx_stat : SyncManager → ℕ
mbx_stat r = r.status / 8 % 2

abbrev pub set_pdi_rep : ℕ → SyncManager → SyncManager
set_pdi_rep v r = record r { act_pdi = r.act_pdi / 4 * 4 + v % 2 * 2 + r.act_pdi % 2 }

unfoldable pub al_error : ℕ → M (Unit {0})
al_error number = do
  modify (set_al (λ a. record a { error = number }))
  esc_write Reg.al_error (bytes16 number)

unfoldable pub al_status : ℕ → M (Unit {0})
al_status status = do
  modify (set_al (λ a. record a { status = status }))
  esc_write Reg.al_status (bytes16 status)

unfoldable pub sm_ack : ℕ → M (Unit {0})
sm_ack n = do dummy ← esc_read (u16 (Reg.sm0_activate + n * 8)) 1; skip

unfoldable pub sm_status : ℕ → M (Unit {0})
sm_status n = do
  b ← esc_read (u16 (Reg.sm0_status + n * 8)) 1
  modify (set_sm n (λ r. record r { status = load8 b 0 }))

unfoldable pub sm_write_pdi : ℕ → M (Unit {0})
sm_write_pdi n = do
  pdi ← gets (λ s. (s.sm n).act_pdi)
  esc_write (u16 (Reg.sm0_pdi + n * 8)) (pdi ∷ [])

unfoldable pub sm_read_pdi : ℕ → M (Unit {0})
sm_read_pdi n = do
  b ← esc_read (u16 (Reg.sm0_pdi + n * 8)) 1
  modify (set_sm n (λ r. record r { act_pdi = load8 b 0 }))

-- `do { ESC_SMreadpdi (n); } while ((sm->ActPDI & 1) != wanted);` with `fuel` more rounds allowed.
unfoldable pub wait_pdi : ℕ → ℕ → ℕ → M (Unit {0})
wait_pdi zero n wanted e s = sm_read_pdi n e s
wait_pdi (suc fuel) n wanted e s =
    let s' = (sm_read_pdi n e s).1 in
    let rest = wait_pdi fuel n wanted e s' in
    if (s'.sm n).act_pdi % 2 == wanted then (tt, s') else rest

unfoldable pub sm_enable : ℕ → M (Unit {0})
sm_enable n = do
  modify (set_sm n (λ r. record r { act_pdi = clear_bit r.act_pdi 1 }))
  sm_write_pdi n
  fuel ← asks (λ e. e.patience)
  wait_pdi fuel n 0

unfoldable pub sm_disable : ℕ → M (Unit {0})
sm_disable n = do
  modify (set_sm n (λ r. record r { act_pdi = set_bit r.act_pdi 1 }))
  sm_write_pdi n
  fuel ← asks (λ e. e.patience)
  wait_pdi fuel n 1

unfoldable pub read_address : M (Unit {0})
read_address = do
  b ← esc_read Reg.address 2
  modify (set_al (λ a. record a { address = load16 b 0 }))

-- The eight bytes of a SyncManager, as `_ESCsm2`.
abbrev pub sync_manager : Mem → SyncManager
sync_manager b = record {
  psa = load16 b 0;
  length = load16 b 2;
  command = load8 b 4;
  status = load8 b 5;
  act_esc = load8 b 6;
  act_pdi = load8 b 7;
}

-- `ESC_read (ESCREG_SMn, &ESCvar.SM[n], 8)`.
unfoldable pub read_sm : ℕ → M (Unit {0})
read_sm n = do b ← esc_read (Reg.sm0 + n * 8) 8; modify (set_sm n (λ _. sync_manager b))

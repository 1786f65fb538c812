-- ===== src/Al/Events.antt =====
-- soes/esc.c: ESC_sm_act_event, the events of the SyncManagers, and ESC_op_pending_step, the request
-- for OP that waits for synchronisation.
use soes.Base.{
  ℕ, ◌+◌, ◌/◌, ◌%◌, Bool, false, not, ◌&&◌, ◌||◌, ◌==◌, ltb, leb, if◌then◌else◌, has_bit,
}
use soes.Base.Int.{below}
use soes.Codes.{esc_boot, esc_op}
use soes.Codes.AlErr
use soes.Codes.Event
use soes.Slave.{Slave, M, ◌>>=◌, ◌>>◌, skip, when, gets, modify, set_mbx, set_sync}
use soes.Bus.{al_error, al_status, sm_ack}
use soes.Mailbox.{stopmbx}
use soes.Al.Managers.{init_error, preop_error, has_error, check_mbx, check_sm23}
use soes.Al.Outputs.{stopoutput, stopinput, startoutput, sm_error, post_hook}
use soes.Al.Request.{safeop_error, clear_error, masked}

unfoldable pub ack_all : M (Unit {0})
ack_all = do sm_ack 0; sm_ack 1; sm_ack 2; sm_ack 3; sm_ack 4; sm_ack 5; sm_ack 6; sm_ack 7

-- The mailbox SyncManagers have changed: down to INIT.
unfoldable pub step_down_init : ℕ → M (Unit {0})
step_down_init ax = do
  active ← gets (λ s. not (s.al.app_state == 0))
  when active (do stopoutput; stopinput)
  stopmbx
  al_error AlErr.invalid_mbx_config
  modify (set_mbx (λ b. record b { run = false }))
  al_status ax

-- The process data SyncManagers have changed: down to PREOP.
unfoldable pub step_down_preop : ℕ → M (Unit {0})
step_down_preop ax23 = do stopoutput; stopinput; sm_error; al_status ax23

unfoldable pub sm_changed : (ac an as_ : ℕ) → M (Unit {0})
sm_changed ac an as_ = do
  ax ← check_mbx as_
  ax23 ← check_sm23 as_
  active ← gets (λ s. not (s.al.app_state == 0))
  if has_error an && not (has_error ac)
      then skip
      else if ax == init_error
      then step_down_init ax
      else if active && (ax23 == preop_error)
      then step_down_preop ax23
      else skip

unfoldable pub sm_act_event : M (Unit {0})
sm_act_event = do
  event ← gets (λ s. s.io.al_event)
  if not (has_bit event Event.sm_change) then skip else (do
    ac ← gets (λ s. s.al.control % 32)
    as_ ← gets (λ s. s.al.status % 32)
    run ← gets (λ s. s.mbx.run)
    -- as & ESCREG_AL_ALLBUTINITMASK
    if not (as_ / 2 % 8 == 0) && not (as_ == esc_boot) && run
        then sm_changed (masked ac ac) (masked ac as_) as_
        else ack_all)

-- ESC_OP_SYNC_VALID_NS and ESC_OP_PENDING_TIMEOUT_NS
abbrev pub sync_valid_ns : ℕ
sync_valid_ns = 200000000

abbrev pub pending_timeout_ns : ℕ
pending_timeout_ns = 8100000000

-- uint64_t
abbrev pub u64 : ℕ → ℕ
u64 n = n % 18446744073709551616

-- Whether this period counts as synchronised.
abbrev pub good_sync : Slave → (sync0 sm_event : Bool) → Bool
good_sync s sync0 sm_event =
    sync0
    && (if ltb 0 s.sync.limit
        then below s.sync.counter s.sync.limit
        else sm_event || (s.al.sm2_sml == 0))

-- The period's account.
unfoldable pub account_period : (sync0 sm_event : Bool) → (elapsed_ns : ℕ) → M (Unit {0})
account_period sync0 sm_event elapsed_ns = do
  modify (
      set_sync (λ y. record y {
        op_pending_ns = u64 (y.op_pending_ns + elapsed_ns);
        op_seen_sync0 = sync0 || y.op_seen_sync0;
        op_seen_sm = sm_event || y.op_seen_sm;
      }))
  modify (λ s.
      set_sync
        (λ y. record y {
          op_valid_ns = if good_sync s sync0 sm_event then u64 (y.op_valid_ns + elapsed_ns) else 0;
        })
        s)

unfoldable pub grant_op : M (Unit {0})
grant_op = do
  modify (set_sync (λ y. record y { op_pending = false }))
  state ← startoutput esc_op
  hooked ← post_hook 0x84 esc_op
  clear_error hooked.1
  al_status hooked.1

-- What was missing when the time is over.
abbrev pub missing : Slave → ℕ
missing s =
    if not s.sync.op_seen_sync0
    then AlErr.no_sync_error
    else if not s.sync.op_seen_sm && ltb 0 s.al.sm2_sml
    then AlErr.watchdog
    else AlErr.sync_error

unfoldable pub refuse_op : M (Unit {0})
refuse_op = do
  modify (set_sync (λ y. record y { op_pending = false }))
  error ← gets missing
  al_error error
  al_status safeop_error

abbrev pub is_synchronised : Slave → Bool
is_synchronised s =
    leb sync_valid_ns s.sync.op_valid_ns && (s.sync.op_seen_sm || (s.al.sm2_sml == 0))

unfoldable pub op_pending_step : (sync0 sm_event : Bool) → (elapsed_ns : ℕ) → M (Unit {0})
op_pending_step sync0 sm_event elapsed_ns = do
  pending ← gets (λ s. s.sync.op_pending)
  if not pending then skip else (do
    account_period sync0 sm_event elapsed_ns
    granted ← gets is_synchronised
    expired ← gets (λ s. leb pending_timeout_ns s.sync.op_pending_ns)
    if granted then grant_op else if expired then refuse_op else skip)

-- ===== src/Tests/AlTests.antt =====
-- The AL state machine on concrete slaves.
use soes.Base.{ℕ, ◌%◌, ◌≡◌, refl, ◌==◌, true, false, List, [], ◌∷◌, if◌then◌else◌, arith, inr, ◌⊎◌}
use soes.Base.Memory.{Mem, load8, load16}
use soes.Codes.Reg
use soes.Slave.{Env, Slave, esc_read, esc_write, call_hook}
use soes.Bus.{sm_disable, sm_write_pdi, wait_pdi, sm_read_pdi, read_sm, al_error, al_status}
use soes.Mailbox.{stopmbx, all_idle}
use soes.Al.{
  init_error, esc_state, read_control, handle, change, to_init_or_boot, leave, stopoutput,
  stopinput, app_safe_state, answer, pre_hook, post_hook, clear_error, check_id_request,
  sm_act_event, sm_changed, check_mbx, fail_mbx, check_sm23, fail_sm23, step_down_init,
  account_period, is_synchronised,
}
use soes.Al.Invariant.{IsSafe}
use soes.Al.Reach.{started, then_call, by_state, Calls-IsSafe}
use soes.Al.Graph.{has_edge}
use soes.Al.Moves.{esc_state_moves}
use soes.Al.Pending.{Period, periods, step, periods_decide}
use soes.Al.Outcome.{SyncTime, GoesToOp, FallsBack, WaitsOn, step_outcome}
use soes.Al.Stale.{Granted, accounted, stale_request}
use soes.Tests.Setup.{linked, slave_at, waiting_at}

-- The master requests INIT.
abbrev init_requested : Mem
init_requested a = if a == Reg.al_control then 1 else 0

abbrev env : Env
env = linked init_requested

-- In OP with the outputs on, when the request arrives.
abbrev operating : Slave
operating = slave_at 8 3 1

state_to_init : (esc_state env operating).1.al.status ≡ 1
unfolding esc_state read_control handle change to_init_or_boot leave stopoutput stopinput stopmbx
    sm_disable sm_write_pdi wait_pdi sm_read_pdi app_safe_state call_hook answer pre_hook post_hook
    clear_error check_id_request al_status esc_read esc_write load8 load16 all_idle
state_to_init = refl

Calls-IsSafe_example : IsSafe (esc_state env operating).1
Calls-IsSafe_example =
    Calls-IsSafe {e = env} {s = operating} (λ log as_ an. refl) (λ log as_ an. refl)
      (then_call started by_state) (inr (refl, refl))

-- Nine periods of a second without SYNC0.
abbrev silence : List Period
silence = record { sync0 = false; sm_event = false; elapsed_ns = 9000000000 } ∷ []

periods_decide_example : (periods env (waiting_at 4 0) silence).sync.op_pending ≡ false
periods_decide_example =
    periods_decide env (waiting_at 4 0) silence (omega arith) (omega arith) (omega arith)

-- A period of 200 ms with SYNC0 and process data.
abbrev good : Period
good = record { sync0 = true; sm_event = true; elapsed_ns = 200000000 }

step_outcome_example :
    (v : ℕ) × SyncTime (waiting_at 4 0) good v
    × (GoesToOp (waiting_at 4 0) good v (step env (waiting_at 4 0) good)
        ⊎ (FallsBack (waiting_at 4 0) good v (step env (waiting_at 4 0) good)
            ⊎ WaitsOn (waiting_at 4 0) good v (step env (waiting_at 4 0) good)))
step_outcome_example = step_outcome env (waiting_at 4 0) good (λ log as_ an. refl) refl

-- In SAFEOP with a request for OP waiting, when the mailbox SyncManagers turn out changed.
abbrev changed : Slave
changed = waiting_at 4 16

stepped_down : (sm_act_event env changed).1.al.status ≡ init_error
unfolding sm_act_event sm_changed check_mbx read_sm fail_mbx check_sm23 fail_sm23 step_down_init
    al_error stopoutput stopinput stopmbx sm_disable sm_write_pdi wait_pdi sm_read_pdi
    app_safe_state call_hook al_status esc_read esc_write load8 load16
stepped_down = refl

good_after : is_synchronised (accounted env (sm_act_event env changed).1 good) ≡ true
unfolding account_period sm_act_event sm_changed check_mbx read_sm fail_mbx check_sm23 fail_sm23
    step_down_init al_error stopoutput stopinput stopmbx sm_disable sm_write_pdi wait_pdi
    sm_read_pdi app_safe_state call_hook al_status esc_read esc_write load8 load16
good_after = refl

stale_request_example :
    Granted
      (accounted env (sm_act_event env changed).1 good)
      (step env (sm_act_event env changed).1 good)
stale_request_example = stale_request env changed good (λ log as_ an. refl) refl good_after

esc_state_moves_example : has_edge false 8 ((esc_state env operating).1.al.status % 16) ≡ true
esc_state_moves_example = esc_state_moves env operating (λ log as_ an. refl) (λ log as_ an. refl)

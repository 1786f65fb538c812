-- ===== src/Sync.antt =====
-- soes/ecat_slv.c: ecat_slv_sync0_account, the sync error counter.
pub mod Counter
pub mod Wrap
use soes.Base.{ℕ, ◌+◌, ◌-◌, Bool, true, false, not, ◌&&◌, ltb, if◌then◌else◌}
use soes.Base.Int.{ℤ, pos, negsuc, add_ℕ, exceeds, to_int16}
use soes.Codes.AlErr
use soes.Slave.{Env, Slave, Sync, M, ◌>>=◌, ◌>>◌, pure, skip, when, gets, modify, set_sync}
use soes.Al.{al_status_goto_error, safeop_error}

-- `if (counter > 0) counter -= 1;`
unfoldable pub drain : ℤ → ℤ
drain (pos n) = pos (n - 1)
drain (negsuc n) = negsuc n

-- UINT16_MAX
abbrev pub uint16_max : ℕ
uint16_max = 65535

-- The counter after a period, as an int32_t.
unfoldable pub counted : Bool → ℤ → ℤ
counted sm_event_seen counter = if sm_event_seen then drain counter else add_ℕ counter 3

unfoldable pub count_period : Bool → ℤ → M (Unit {0})
count_period sm_event_seen counter = modify (
    set_sync (λ y. record y {
      counter = to_int16 counter;
      missed = if not sm_event_seen && ltb y.missed uint16_max then y.missed + 1 else y.missed;
    }))

unfoldable pub sync0_account : Bool → M (Unit {0})
sync0_account sm_event_seen = do
  counter ← gets (λ s. counted sm_event_seen s.sync.counter)
  count_period sm_event_seen counter
  over ← gets (λ s. ltb 0 s.sync.limit && exceeds s.sync.limit counter)
  when over (do
    modify (set_sync (λ y. record y { error = true; counter = pos 0 }))
    al_status_goto_error safeop_error AlErr.sync_error)

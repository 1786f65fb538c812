-- ===== src/Al/Request.antt =====
-- soes/esc.c: ESC_state, with ESC_check_id_request and ESC_load_device_id.
use soes.Base.{
  ℕ, ◌+◌, ◌*◌, ◌%◌, Bool, true, false, not, ◌&&◌, ◌||◌, List, Option, none, some, ◌==◌, ltb,
  if◌then◌else◌, u8, has_bit, set_bit,
}
use soes.Base.Memory.{load16}
use soes.Codes.{esc_init, esc_preop, esc_boot, esc_safeop, esc_op, esc_error}
use soes.Codes.Reg
use soes.Codes.AlErr
use soes.Codes.Event
use soes.Slave.{
  Access, M, ◌>>=◌, ◌>>◌, pure, skip, when, gets, asks, modify, esc_read, set_al, set_sync,
}
use soes.Bus.{al_error, al_status, read_address, sm_enable, sm_disable}
use soes.Pdo.{size_of_pdo, rx_pdo_objidx, tx_pdo_objidx}
use soes.Mailbox.{stopmbx}
use soes.Al.Managers.{startmbx, startmbxboot, init_error, preop_error, has_error}
use soes.Al.Outputs.{startoutput, stopoutput, startinput, stopinput, pre_hook, post_hook}

-- SAFEOP | ERROR
abbrev pub safeop_error : ℕ
safeop_error = esc_safeop + esc_error

-- A transition: the requested state in the high bits, the present one in the low bits.
abbrev pub transition : (ac status : ℕ) → ℕ
transition ac status = u8 (ac * 16 + status % 16)

-- A request that is refused with `error`, and the AL status it is answered with.
unfoldable pub refuse : (an error : ℕ) → M ℕ
refuse an error = do al_error error; pure an

-- ESCREG_AL_ID_REQUEST
abbrev pub id_request : ℕ
id_request = 0x20

unfoldable pub check_id_request : (al_control an : ℕ) → M Bool
check_id_request al_control an =
    let state = al_control % 16 in
    if has_bit al_control id_request
      && not (state == esc_boot)
      && (ltb state esc_safeop || (an == esc_safeop) || (an == esc_op))
    then (do b ← esc_read Reg.al_error 2; pure (load16 b 0 == AlErr.none))
    else pure false

-- The hook's answer, or the station alias where there is no hook.
unfoldable pub ask_device_id : Option (List Access → Option ℕ) → M ℕ
ask_device_id none = do b ← esc_read Reg.conf_station_alias 2; pure (load16 b 0)
ask_device_id (some get) = gets (λ s. elim (get s.io.log) [ none ↦ 0 | some number ↦ number ])

unfoldable pub device_id : M ℕ
device_id = do handler ← asks (λ e. e.al.get_device_id); ask_device_id handler

unfoldable pub load_device_id : M ℕ
load_device_id = do
  number ← device_id
  if not (number == 0) then (do al_error number; pure id_request) else pure 0

-- If no outputs are present, the error is flagged with SM3.
unfoldable pub flag_input : M (Unit {0})
flag_input = do
  alone ← gets (λ s. (s.al.sm2_sml == 0) && ltb 0 s.al.sm3_sml)
  when alone (sm_disable 3)

-- The sizes of the process data, of SM2 and of SM3: whether they are valid.
unfoldable pub size_sm2 : M Bool
size_sm2 = do
  e ← asks (λ e. e.al)
  r ← gets (λ s.
      size_of_pdo rx_pdo_objidx s.al.sm2_mappings s.sm2_map e.max_mappings_sm2 s.ram s.objects)
  modify (λ s. record s {
    al = record (s.al) { sm2_sml = r.bytes; sm2_mappings = r.nmappings };
    sm2_map = r.maps;
  })
  pure (elim r.nmappings [ none ↦ false | some n ↦ true ])

unfoldable pub size_sm3 : M Bool
size_sm3 = do
  e ← asks (λ e. e.al)
  r ← gets (λ s.
      size_of_pdo tx_pdo_objidx s.al.sm3_mappings s.sm3_map e.max_mappings_sm3 s.ram s.objects)
  modify (λ s. record s {
    al = record (s.al) { sm3_sml = r.bytes; sm3_mappings = r.nmappings };
    sm3_map = r.maps;
  })
  pure (elim r.nmappings [ none ↦ false | some n ↦ true ])

-- PREOP_TO_SAFEOP and SAFEOP_TO_SAFEOP
unfoldable pub enter_safeop : ℕ → M ℕ
enter_safeop ac = do
  valid2 ← size_sm2
  if not valid2 then refuse preop_error AlErr.invalid_output_sm else (do
    valid3 ← size_sm3
    if not valid3
        then refuse preop_error AlErr.invalid_input_sm
        else (do an ← startinput ac; when (an == ac) (sm_enable 2); pure an))

-- SAFEOP_TO_OP
unfoldable pub hold_op : M (Unit {0})
hold_op = modify (
    set_sync (λ y. record y {
      op_pending = true;
      op_seen_sync0 = false;
      op_seen_sm = false;
      op_pending_ns = 0;
      op_valid_ns = 0;
    }))

unfoldable pub enter_op : ℕ → M ℕ
enter_op ac = do
  dcsync ← gets (λ s. s.sync.dcsync)
  if ltb 0 dcsync then (do hold_op; pure esc_safeop) else startoutput ac

-- OP_TO_BOOT
unfoldable pub op_to_boot : M ℕ
op_to_boot = do al_error AlErr.invalid_state_change; stopoutput; flag_input; pure safeop_error

-- The default of the switch: a request for no state.
unfoldable pub report_unknown : (as_ an : ℕ) → M ℕ
report_unknown as_ an = do
  when (as_ == esc_safeop) stopinput
  al_error AlErr.unknown_state
  pure (set_bit an esc_error)

unfoldable pub unknown_request : (as_ an : ℕ) → M ℕ
unknown_request as_ an =
    if an == esc_op
    then (do stopoutput; flag_input; report_unknown as_ esc_safeop)
    else report_unknown as_ an

-- A stop, in its order, and the state it leads to.
unfoldable pub leave : (stop_outputs stop_inputs stop_mailbox : Bool) → (an : ℕ) → M ℕ
leave stop_outputs stop_inputs stop_mailbox an = do
  when stop_outputs stopoutput
  when stop_inputs stopinput
  when stop_mailbox stopmbx
  pure an

unfoldable pub to_preop : (as_ ac an : ℕ) → M ℕ
to_preop as_ ac an =
    if as_ == 0x21
    then (do read_address; startmbx ac)
    else if (as_ == 0x22)
    then pure an
    else if (as_ == 0x23)
    then refuse preop_error AlErr.invalid_state_change
    else if as_ == 0x24
    then leave false true false esc_preop
    else if as_ == 0x28
    then leave true true false esc_preop
    else unknown_request as_ an

unfoldable pub to_init_or_boot : (as_ ac an : ℕ) → M ℕ
to_init_or_boot as_ ac an =
    if as_ == 0x11
    then pure an
    else if (as_ == 0x12) || (as_ == 0x13)
    then leave false false true esc_init
    else if as_ == 0x14
    then leave false true true esc_init
    else if as_ == 0x18
    then leave true true true esc_init
    else if (as_ == 0x31) || (as_ == 0x33)
    then (do read_address; startmbxboot ac)
    else if as_ == 0x32
    then refuse preop_error AlErr.invalid_state_change
    else if as_ == 0x34
    then refuse safeop_error AlErr.invalid_state_change
    else if as_ == 0x38
    then op_to_boot
    else to_preop as_ ac an

-- The switch of ESC_state. The cases are disjoint, so their order does not matter.
unfoldable pub change : (as_ ac an : ℕ) → M ℕ
change as_ ac an =
    if (as_ == 0x41) || (as_ == 0x81)
    then refuse init_error AlErr.invalid_state_change
    else if (as_ == 0x82) || (as_ == 0x43) || (as_ == 0x83)
    then refuse preop_error AlErr.invalid_state_change
    else if (as_ == 0x42) || (as_ == 0x44)
    then enter_safeop ac
    else if as_ == 0x84
    then enter_op ac
    else if as_ == 0x48
    then leave true false false esc_safeop
    else if as_ == 0x88
    then pure an
    else to_init_or_boot as_ ac an

-- The end of ESC_state, and of a granted request in ESC_op_pending_step.
unfoldable pub clear_error : ℕ → M (Unit {0})
clear_error an = do
  pending ← gets (λ s. not (s.al.error == 0))
  when (not (has_error an) && pending) (al_error AlErr.none)

unfoldable pub answer : (as_ an : ℕ) → M (Unit {0})
answer as_ an = do
  hooked ← post_hook as_ an
  clear_error hooked.1
  control ← gets (λ s. s.al.control)
  wanted ← check_id_request control hooked.1
  id ← if wanted then load_device_id else pure 0
  al_status (if id == id_request then set_bit hooked.1 id_request else hooked.1)

-- From the masked request on.
unfoldable pub handle : (ac an status : ℕ) → M (Unit {0})
handle ac an status =
    let as_ = transition ac status in
    if has_error an && not (has_error ac) then skip else (do
      pending ← gets (λ s. s.sync.op_pending)
      if pending && (as_ == 0x84) then skip else (do
        when pending (modify (set_sync (λ y. record y { op_pending = false })))
        hooked ← pre_hook as_ an
        result ← change hooked.0 ac hooked.1
        answer hooked.0 result))

-- Whether the error is acknowledged: the masks of AL control and AL status lose the error bit.
abbrev pub acknowledges : ℕ → Bool
acknowledges ac = has_error ac || (ac == esc_init)

abbrev pub masked : (ac v : ℕ) → ℕ
masked ac v = if acknowledges ac then v % 16 else v

unfoldable pub read_control : M (Unit {0})
read_control = do
  b ← esc_read Reg.al_control 2
  modify (set_al (λ a. record a { control = load16 b 0 }))

unfoldable pub esc_state : M (Unit {0})
esc_state = do
  event ← gets (λ s. s.io.al_event)
  if not (has_bit event Event.control) then skip else (do
    read_control
    ac ← gets (λ s. s.al.control % 32)
    status ← gets (λ s. s.al.status % 32)
    handle (masked ac ac) (masked ac status) status)

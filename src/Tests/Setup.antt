-- ===== src/Tests/Setup.antt =====
-- A concrete slave and what it is linked with, for the examples.
use soes.Base.{ℕ, true, false, none, some, List, [], ◌∷◌}
use soes.Base.Memory.{Mem}
use soes.Base.Int.{pos}
use soes.Slave.{
  SmCfg, SyncManager, idle, Mailbox, ready, Flush, Foe, Al, Sync, Slave, FileCfg, FoeCfg, CoeCfg,
  AlCfg, Env,
}

abbrev pub inbox_cfg : SmCfg
inbox_cfg = record { sma = 0x1000; sml = 128; sme = 0x107F; smc = 0x26; smact = 1 }

abbrev pub outbox_cfg : SmCfg
outbox_cfg = record { sma = 0x1080; sml = 128; sme = 0x10FF; smc = 0x22; smact = 1 }

-- A firmware image with the name "a", up to 1000 bytes.
abbrev pub image : FileCfg
image = record { name = 97 ∷ []; max_data = 1000; filepass = 0; write_only_in_boot = false }

-- The bytes that were handed over all count as written.
abbrev pub written_all : List Flush → ℕ
written_all [] = 0
written_all (c ∷ cs) = 0

abbrev pub files : FoeCfg
files = record {
  buffer_size = 256;
  files = image ∷ [];
  read_supported = false;
  write_function = written_all;
}

abbrev pub al_cfg : AlCfg
al_cfg = record {
  use_interrupt = false;
  sm2_sma = 0x1100;
  sm2_smc = 0x24;
  sm2_act = 1;
  sm3_sma = 0x1180;
  sm3_smc = 0x20;
  sm3_act = 1;
  max_mappings_sm2 = 16;
  max_mappings_sm3 = 16;
  pre_state_change = none;
  post_state_change = none;
  check_dc = none;
  get_device_id = none;
  has_safe_state = true;
  has_irq_enable = false;
  has_irq_disable = false;
}

-- No object hooks.
abbrev pub plain_coe : CoeCfg
plain_coe = record {
  pre_object_upload_hook = none;
  post_object_upload_hook = none;
  pre_object_download_hook = none;
  post_object_download_hook = none;
  mbxdata = 0x10000;
  prealloc_factor = 3;
}

-- A controller whose bytes are those of `m`, whatever happens.
abbrev pub linked : Mem → Env
linked m = record {
  byte = λ log a. m a;
  event = λ log v. v;
  patience = 3;
  buffers = 4;
  mbx_size = 128;
  mbx_size_boot = 128;
  mb0 = inbox_cfg;
  mb1 = outbox_cfg;
  mbboot0 = inbox_cfg;
  mbboot1 = outbox_cfg;
  foe = files;
  sdo = plain_coe;
  al = al_cfg;
}

abbrev pub no_bytes : Mem
no_bytes a = 0

abbrev pub no_foe : Foe
no_foe = record {
  state = ready;
  fbufposition = 0;
  packet = 0;
  fposition = 0;
  fprevposition = 0;
  fend = 0;
  fbuffer = no_bytes;
  file_name = [];
  file = none;
  address_offset = λ k. 0;
  total_size = λ k. 0;
  flushes = [];
}

abbrev pub blank_sm : SyncManager
blank_sm = record { psa = 0; length = 0; command = 0; status = 0; act_esc = 0; act_pdi = 0 }

abbrev pub running : Mailbox
running = record {
  run = true;
  size = 128;
  mb0 = inbox_cfg;
  mb1 = outbox_cfg;
  cnt = 0;
  incnt = 0;
  posted = 0;
  kept = 0;
  xoe = 0;
  txcue = 0;
  free = true;
  toggle = 0;
  segmented = 0;
  dataptr = 0;
  entries = 0;
  frags = 0;
  fragsleft = 0;
  index = 0;
  subindex = 0;
  flags = 0;
}

abbrev pub al_at : (status app_state : ℕ) → Al
al_at status app_state = record {
  status = status;
  control = status;
  error = 0;
  address = 0;
  app_state = app_state;
  sm_test_result = 0;
  sm2_sml = 8;
  sm3_sml = 8;
  sm2_mappings = some 0;
  sm3_mappings = some 0;
}

abbrev pub no_sync : Sync
no_sync = record {
  dcsync = 0;
  limit = 0;
  counter = pos 0;
  missed = 0;
  error = false;
  sm_event_seen = false;
  op_pending = false;
  op_seen_sync0 = false;
  op_seen_sm = false;
  op_pending_ns = 0;
  op_valid_ns = 0;
}

-- A slave with running mailboxes, all idle, in the AL state `status`, with the event shadow `al_event`.
abbrev pub slave_at : (status app_state al_event : ℕ) → Slave
slave_at status app_state al_event = record {
  io = record { log = []; al_event = al_event };
  mem = no_bytes;
  control = λ k. idle;
  sm = λ n. blank_sm;
  mbx = running;
  al = al_at status app_state;
  sync = no_sync;
  objects = [];
  sm2_map = [];
  sm3_map = [];
  foe = no_foe;
  sdo_held = record { active = false; index = 0; subindex = 0 };
  ram = no_bytes;
}

-- The same with a request for OP waiting.
abbrev pub waiting_at : (status al_event : ℕ) → Slave
waiting_at status al_event = record (slave_at status 1 al_event) {
  sync = record no_sync { dcsync = 1; op_pending = true };
}

-- ===== src/Slave/Types.antt =====
-- Records for the variables of soes/esc.h and soes/esc_foe.h, and what the stack is built with.
-- Flags that only ever hold 0 or 1 are Booleans; every other integer is a natural number.
use soes.Base.{ℕ, Bool, Option, List}
use soes.Base.Memory.{Mem}
use soes.Base.Int.{ℤ}

-- What the outside sees of the stack: an access to the EtherCAT slave controller,
-- `rd address length` or `wr address bytes`, or the call of a hook.
pub data Access : Type 0 where
  rd : ℕ → ℕ → Access
  wr : ℕ → List ℕ → Access
  -- Calls of the application's hooks that only act outside the stack.
  enable_irq disable_irq : ℕ → Access
  safe_state : Access

-- `sm_cfg_t`.
pub record SmCfg : Type 0 where
  pub sma : ℕ
  pub sml : ℕ
  pub sme : ℕ
  pub smc : ℕ
  pub smact : ℕ

-- `_ESCsm2`: the shadow of one SyncManager's registers. The bit fields of `_ESCsm` are read from
-- these bytes.
pub record SyncManager : Type 0 where
  pub psa : ℕ
  pub length : ℕ
  pub command : ℕ
  pub status : ℕ
  pub act_esc : ℕ
  pub act_pdi : ℕ

-- `_MBXcontrol.state`.
pub data MbxState : Type 0 where
  idle inclaim outclaim outreq outpost backup again : MbxState

-- The fields of `_ESCvar` that the mailbox layer keeps.
pub record Mailbox : Type 0 where
  pub run : Bool
  pub size : ℕ
  pub mb0 : SmCfg
  pub mb1 : SmCfg
  pub cnt : ℕ
  pub incnt : ℕ
  pub posted : ℕ
  pub kept : ℕ
  pub xoe : ℕ
  pub txcue : ℕ
  pub free : Bool
  pub toggle : ℕ
  pub segmented : ℕ
  pub dataptr : ℕ
  pub entries : ℕ
  pub frags : ℕ
  pub fragsleft : ℕ
  pub index : ℕ
  pub subindex : ℕ
  pub flags : ℕ

-- `FOEvar.foestate`.
pub data FoeState : Type 0 where
  ready wait_for_ack wait_for_final_ack wait_for_data : FoeState

-- One call of a file's `write_function`: the file, its address offset and the bytes handed over.
pub record Flush : Type 0 where
  pub file : ℕ
  pub offset : ℕ
  pub content : List ℕ

-- `_FOEvar`, with the other static variables of esc_foe.c, the buffer and the files' counters.
-- `file` is the pointer `foe_file`, as an index; `flushes` are the calls made so far, the newest
-- first.
pub record Foe : Type 0 where
  pub state : FoeState
  pub fbufposition : ℕ
  pub packet : ℕ
  pub fposition : ℕ
  pub fprevposition : ℕ
  pub fend : ℕ
  pub fbuffer : Mem
  pub file_name : List ℕ
  pub file : Option ℕ
  pub address_offset : ℕ → ℕ
  pub total_size : ℕ → ℕ
  pub flushes : List Flush

-- The accesses made so far, the newest first, and the shadow of the AL event register.
pub record Io : Type 0 where
  pub log : List Access
  pub al_event : ℕ

-- The fields of `_ESCvar` that the AL state machine keeps.
pub record Al : Type 0 where
  pub status : ℕ
  pub control : ℕ
  pub error : ℕ
  pub address : ℕ
  pub app_state : ℕ
  pub sm_test_result : ℕ
  pub sm2_sml : ℕ
  pub sm3_sml : ℕ
  pub sm2_mappings : Option ℕ
  pub sm3_mappings : Option ℕ

-- The fields of `_ESCvar` about distributed clocks and the pending request for OP.
pub record Sync : Type 0 where
  pub dcsync : ℕ
  pub limit : ℕ
  pub counter : ℤ
  pub missed : ℕ
  pub error : Bool
  pub sm_event_seen : Bool
  pub op_pending : Bool
  pub op_seen_sync0 : Bool
  pub op_seen_sm : Bool
  pub op_pending_ns : ℕ
  pub op_valid_ns : ℕ

-- `_objd` and `_objectlist`: an entry of the object dictionary and an object. `dataptr` is `data`, an address
-- in the application's memory, 0 for NULL; a name is its characters without the final 0.
pub record Entry : Type 0 where
  pub subindex : ℕ
  pub datatype : ℕ
  pub bitlength : ℕ
  pub flags : ℕ
  pub name : List ℕ
  pub value : ℕ
  pub dataptr : ℕ

pub record Object : Type 0 where
  pub index : ℕ
  pub objtype : ℕ
  pub maxsub : ℕ
  pub name : List ℕ
  pub entries : List Entry

-- `_SMmap`: the mapped entry, as positions in the dictionary, or none for padding; and its offset in
-- bits.
pub record Mapping : Type 0 where
  pub obj : Option (ℕ × ℕ)
  pub offset : ℕ

-- `sdo_held` of esc_coe.c: the download whose reply is held back.
pub record Held : Type 0 where
  pub active : Bool
  pub index : ℕ
  pub subindex : ℕ

pub record Slave : Type 0 where
  pub io : Io
  pub mem : Mem
  pub control : ℕ → MbxState
  pub sm : ℕ → SyncManager
  pub mbx : Mailbox
  pub al : Al
  pub sync : Sync
  -- SDOobjects without its end mark, SMmap2 and SMmap3.
  pub objects : List Object
  pub sm2_map : List Mapping
  pub sm3_map : List Mapping
  pub foe : Foe
  pub sdo_held : Held
  -- The memory that the entries' `data` point into, and ESCvar.mbxdata.
  pub ram : Mem

-- `foe_file_cfg_t`, the fields that the stack only reads.
pub record FileCfg : Type 0 where
  pub name : List ℕ
  pub max_data : ℕ
  pub filepass : ℕ
  pub write_only_in_boot : Bool

-- `foe_cfg_t`, FOE_READ_SUPPORTED, and the files' `write_function`: what it returns may depend on
-- all the calls made so far, the present one at the head.
pub record FoeCfg : Type 0 where
  pub buffer_size : ℕ
  pub files : List FileCfg
  pub read_supported : Bool
  pub write_function : List Flush → ℕ

-- The options of the AL state machine. A hook may be absent; what it does may depend on the accesses
-- made so far. `get_device_id` returns none when it fails.
-- `check_dc` is given `dcsync` and `synccounterlimit`, and returns its code and what it
-- leaves in them.
pub record AlCfg : Type 0 where
  pub use_interrupt : Bool
  pub sm2_sma : ℕ
  pub sm2_smc : ℕ
  pub sm2_act : ℕ
  pub sm3_sma : ℕ
  pub sm3_smc : ℕ
  pub sm3_act : ℕ
  pub max_mappings_sm2 : ℕ
  pub max_mappings_sm3 : ℕ
  pub pre_state_change : Option (List Access → ℕ → ℕ → ℕ × ℕ)
  pub post_state_change : Option (List Access → ℕ → ℕ → ℕ × ℕ)
  pub check_dc : Option (List Access → ℕ → ℕ → ℕ × ℕ × ℕ)
  pub get_device_id : Option (List Access → Option ℕ)
  pub has_safe_state : Bool
  pub has_irq_enable : Bool
  pub has_irq_disable : Bool

-- The object hooks of the application, each of which may be absent. What they return, and what they do
-- to the application's memory, may depend on that memory. All are given the index and the subindex, and
-- last the flags. An upload's pre hook is given the address of the data (0 for the constant of the
-- entry) and the size, and returns the abort code and the size; a download's is given the bytes. ESCvar.mbxdata lies at `mbxdata`
-- in that memory; `prealloc_factor` is PREALLOC_FACTOR and `mbx_size` below MBXSIZE.
pub record CoeCfg : Type 0 where
  pub pre_object_upload_hook : Option (Mem → ℕ → ℕ → ℕ → ℕ → ℕ → (ℕ × ℕ) × Mem)
  pub post_object_upload_hook : Option (Mem → ℕ → ℕ → ℕ → ℕ × Mem)
  pub pre_object_download_hook : Option (Mem → ℕ → ℕ → List ℕ → ℕ → ℕ × Mem)
  pub post_object_download_hook : Option (Mem → ℕ → ℕ → ℕ → ℕ × Mem)
  pub mbxdata : ℕ
  pub prealloc_factor : ℕ

-- What the stack is built and linked with. `byte log a` is what the controller answers at
-- address `a` after the accesses `log`; `event log v` is the AL event shadow after an access, which
-- a port refreshes or leaves at `v`. `patience` bounds the read-back loops.
pub record Env : Type 0 where
  pub byte : List Access → ℕ → ℕ
  pub event : List Access → ℕ → ℕ
  pub patience : ℕ
  pub buffers : ℕ
  pub mbx_size : ℕ
  pub mbx_size_boot : ℕ
  pub mb0 : SmCfg
  pub mb1 : SmCfg
  pub mbboot0 : SmCfg
  pub mbboot1 : SmCfg
  pub foe : FoeCfg
  pub sdo : CoeCfg
  pub al : AlCfg

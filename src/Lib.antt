-- ===== src/Lib.antt =====
-- SOES, an EtherCAT slave stack in C: a model of its core, with the theorems about it.
--
-- The stack sits between an EtherCAT slave controller (ESC), which it reaches by register reads and
-- writes, and an application. Its parts share one global state, ESCvar, and the mailbox buffers:
--   * soes/esc.c, register access: AL status and error, and the shadows of the SyncManagers;
--   * soes/esc.c, mailbox layer: buffers that are claimed, queued, posted, kept for a repeat request;
--   * soes/esc_foe.c, File over EtherCAT (FoE): takes messages from the inbox buffer, queues replies, and
--     hands a file's bytes to the application's write function;
--   * soes/esc.c, AL state machine: INIT, PREOP, BOOT, SAFEOP and OP, the start and stop of mailboxes, inputs
--     and outputs, and the request for OP that waits for synchronisation;
--   * soes/esc_coe.c, object dictionary and CoE: the search for entries, the size of the process data and
--     its copies, and the SDO services, which read and write the application's memory through the entries'
--     data pointers;
--   * soes/ecat_slv.c, the synchronisation account of distributed clocks, and the check of the watchdog.
--
-- Where each part is:
--   Base       native numbers, Booleans, fixed-width wraps, bits, byte memory, integers
--   Codes      the register, event, error and state codes of soes/esc.h
--   Slave      the state (ESCvar, MBXcontrol, MBX, FOEvar, the dictionary, the application's memory) and
--              programs over it; Slave.Hoare has the logic for them
--   Bus        ESC_ALerror, ESC_ALstatus, ESC_SMack, ESC_SMstatus, ESC_SMenable, ESC_SMdisable ...
--   Mailbox    ESC_claimbuffer, ESC_outreqbuffer, MBX_error, ESC_readmbx, ESC_writembx, ESC_mbxprocess,
--              ESC_xoeprocess, ESC_stopmbx
--   Foe        all of soes/esc_foe.c, the part under FOE_READ_SUPPORTED by a flag of the build
--   Pdo        SDO_findsubindex, SDO_findobject, sizeOfPDO; Pdo.Slices has COE_bitsliceGet and COE_bitsliceSet,
--              Pdo.Values COE_getValue, COE_setValue and COE_initDefaultValues, Pdo.Pack COE_pdoPack and
--              COE_pdoUnpack
--   Coe        ESC_coeprocess with all it calls in soes/esc_coe.c: SDO_upload, SDO_download, complete access,
--              the segments, ESC_SDO_complete, SDO_getodlist ...; and the object handlers of
--              soes/ecat_slv.c. Coe.Process puts the services of the other files together
--   Al         ESC_checkDC, ESC_checkmbx, ESC_startmbx, ESC_checkSM23, ESC_startinput, ESC_stopoutput ...,
--              ESC_ALstatusgotoerror, ESC_state, ESC_sm_act_event, ESC_op_pending_step
--   Sync       ecat_slv_sync0_account
--   Watchdog   hw_watchdog_check of soes/ecat_slv.c
--   Tests      runs on concrete slaves, and each theorem applied to one
--
-- How code is modelled. A function of the source is a program `Env → Slave → result × Slave`. Slave is the
-- stack's state with the log of all accesses made so far; Env is what the stack is built and linked with:
-- options, hooks, and the controller. What the controller answers at an address may depend on all the
-- accesses before (`byte`), and so may the shadow of the AL event register, which a port refreshes or not
-- (`event`). The hooks that return a value are functions of the log as well. That
-- of the DC check also sets `dcsync` and `synccounterlimit`. Debug prints are left out.
--
-- Integers are natural numbers with the wrap of their width written out; flags that only hold 0 and 1 are
-- Booleans. The sync error counter is signed. The buffers are one memory of bytes, buffer n at n times
-- the active size. Byte order is little endian, as on the wire.
--
-- The application's memory is one memory of bytes, `ram`; an entry's `data` is an address in it, 0 for
-- NULL. ESCvar.mbxdata lies in it at `mbxdata`, with `prealloc_factor` times the active size. The
-- application's object hooks are parameters that return an abort code, and may read and change that memory.
-- The process data are a memory of their own, an argument of COE_pdoPack and COE_pdoUnpack.
-- Names of objects and entries are shorter than 256 characters. The list of objects ends in its mark, index
-- 0xFFFF, which a search for that index finds. What the source then does with the mark's NULL `objdesc` is
-- undefined; the model reads an entry of zeros there.
--
-- Loops over buffers, files, bytes and dictionary entries are recursion on their number. The read-back
-- loops of ESC_SMenable and ESC_SMdisable have no bound in the source: `patience` more rounds are
-- allowed, which is enough if the controller shows the bit by then. The 8-bit loops of sizeOfPDO are
-- meant for counts of at most 254, since at 255 the source does not end.
--
-- Not modelled: the HAL (SPI and GPIO access), Ethernet over EtherCAT, the EEPROM emulation, the cyclic
-- loop with its software watchdog, ESC_config and FOE_config (they copy options that are parameters
-- here), and the example applications.
pub mod Base
pub mod Codes
pub mod Slave
pub mod Bus
pub mod Mailbox
pub mod Foe
pub mod Pdo
pub mod Coe
pub mod Al
pub mod Sync
pub mod Watchdog
mod Tests

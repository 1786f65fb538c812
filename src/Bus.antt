-- ===== src/Bus.antt =====
-- soes/esc.c: the register accesses of the AL status, the AL event shadow and the
-- SyncManagers, as programs over the bus.
mod Regs
pub mod Frame
pub mod Settle
unfoldable pub use Regs.*

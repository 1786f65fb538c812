-- ===== src/Slave.antt =====
-- soes/esc.h: the state that the stack keeps (ESCvar, MBX, MBXcontrol and the file variables of
-- its modules), the option constants and application hooks, and the programs over that state.
mod Types
mod Program
pub mod Hoare
pub use Types.*
unfoldable pub use Program.*

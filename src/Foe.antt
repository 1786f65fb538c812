-- ===== src/Foe.antt =====
-- soes/esc_foe.c: File over EtherCAT.
mod File
mod Reply
mod Handlers
pub mod Stream
pub mod Frames
pub mod Receiver
pub mod Packets
pub mod Session
pub mod Completion
pub mod Progress
pub mod Starting
pub mod Inbox
pub mod Opening
pub mod Faults
unfoldable pub use File.*
unfoldable pub use Reply.*
unfoldable pub use Handlers.*

-- ===== src/Mailbox.antt =====
-- soes/esc.c: the mailbox layer.
mod Buffers
mod Transfer
pub mod Cue
pub mod Valid
pub mod Claim
pub mod Keeps
pub mod Race
pub mod Lost
pub mod Inbox
unfoldable pub use Buffers.*
unfoldable pub use Transfer.*

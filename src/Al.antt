-- ===== src/Al.antt =====
-- soes/esc.c: the AL state machine.
mod Managers
mod Outputs
mod Request
mod Events
mod Steady
mod Off
pub mod Safety
pub mod Invariant
pub mod Reach
pub mod Pending
pub mod Stale
pub mod Outcome
pub mod Graph
pub mod Moves
unfoldable pub use Managers.*
unfoldable pub use Outputs.*
unfoldable pub use Request.*
unfoldable pub use Events.*

-- ===== src/Tests.antt =====
-- Runs of the model on concrete slaves, and the theorems applied to them.
mod Setup
mod AlTests
mod SyncTests
mod WatchdogTests
mod PdoTests
mod PackTests
mod BusTests
mod MailboxTests
mod FoeTests
mod CoeTests
mod SdoTests

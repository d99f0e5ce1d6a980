-- ===== src/Reload.antt =====
-- llmsvc/reload.py: when a configuration may be reloaded.
pub mod Quiet
pub mod Calm
pub mod Blockers
pub mod Admitted
pub mod World
pub mod Transaction
pub mod Steps
pub mod Commit
pub mod Fenced
pub mod Installed
pub mod Queue
pub mod Promise
pub mod Receipt
pub mod Settle
pub mod Lifted
pub mod Absent
pub mod Witnesses
pub mod QueueWitnesses

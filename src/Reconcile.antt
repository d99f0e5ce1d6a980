-- ===== src/Reconcile.antt =====
-- llmsvc/reconcile.py: registering and unregistering models by their directories.
pub mod Backoff
pub mod Run
pub mod Endings
pub mod Polite
pub mod Forgets
pub mod Witnesses

-- ===== src/Leases.antt =====
-- llmsvc/leases.py: placement leases. A bootstrap in progress is not modelled: the scheduler has none.
pub mod Probe
pub mod Observed
pub mod Finish
pub mod Reconcile
pub mod Evidence
pub mod Safety
pub mod Admission
pub mod Admitted
pub mod Accounts
pub mod Window
pub mod Victim
pub mod Place
pub mod Passes
pub mod Kept
pub mod Declines
pub mod Granted
pub mod Witnesses
pub mod PlaceWitnesses

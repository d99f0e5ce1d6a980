-- ===== src/Store.antt =====
-- llmsvc/store.py: the durable intents of the service.
pub mod Rows
pub mod Leases
pub mod Faults
pub mod Recoveries
pub mod Table
pub mod Single
pub mod Maintenance
pub mod Life
pub mod Keeps
pub mod Safety
pub mod Cleanup
pub mod Claims
pub mod Recovering
pub mod Intents
pub mod Reachable
pub mod Created
pub mod Samples
pub mod Witnesses

-- ===== src/Policy.antt =====
-- llmsvc/policy: pure decisions over a snapshot.
pub mod Settings
pub mod Ranking
pub mod Projection
pub mod Intents
pub mod Feasibility
pub mod Placement
pub mod Safety
pub mod Pressure
pub mod Reserve
pub mod WakeFailure
pub mod Recovery
pub mod Samples
pub mod Witnesses

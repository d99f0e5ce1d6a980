-- ===== src/Fleet.antt =====
-- llmsvc/fleet: what the observer of the fleet tells its clients.
pub mod Events
pub mod Witnesses

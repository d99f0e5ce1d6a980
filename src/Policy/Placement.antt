-- ===== src/Policy/Placement.antt =====
-- llmsvc/policy/placement.py
pub mod Accounting
pub mod Cards
pub mod Evictions
pub mod Plan
pub mod Destination
pub mod Residents
pub mod Pricing
pub mod Outcome
pub mod Stops
pub mod Acts
pub mod Evicting
pub mod Safety
pub mod Accounted

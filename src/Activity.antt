-- ===== src/Activity.antt =====
-- llmsvc/activity.py: the reader of the proxy's activity database.
pub mod Errors
pub mod Source
pub mod Report
pub mod Sums
pub mod Tallied
pub mod Balanced
pub mod Summary
pub mod Seek
pub mod Read
pub mod Cover
pub mod Grouped
pub mod Newest
pub mod Exact
pub mod Witnesses

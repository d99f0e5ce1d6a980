-- ===== src/Policy/Projection.antt =====
-- llmsvc/policy/common.py: `Projection`, the speculative state of a policy. A method is a function
-- to the new state. The children hold the methods in groups.
mod Defs
mod Checks
mod Ranked
mod Memory
unfoldable pub use Defs.*
unfoldable pub use Checks.*
unfoldable pub use Ranked.*
unfoldable pub use Memory.*

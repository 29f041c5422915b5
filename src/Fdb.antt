-- ===== src/Fdb.antt =====
-- The tables of learned addresses: aruba_agent/fdb.py, and the search of
-- aruba_agent/tasks/l2_discovery.py. The definitions are passed on; the proofs are in the modules below.
mod Mac
mod Table
mod Search
pub mod Spelling
pub mod Places
pub mod Counts
pub mod Rows
pub mod Edge
pub mod Tests
unfoldable pub use Mac.*
unfoldable pub use Table.*
unfoldable pub use Search.*

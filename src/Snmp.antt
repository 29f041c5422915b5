-- ===== src/Snmp.antt =====
-- `SnmpAgent.bulk_walk` of aruba_agent/snmp.py. What the agent of a device answers is an argument.
-- The definitions are passed on; the proofs are in the modules below.
mod Pages
pub mod Ends
pub mod Page
pub mod Column
pub mod Complete
pub mod Tests
unfoldable pub use Pages.*

-- ===== src/Traps.antt =====
-- SNMP traps: aruba_agent/traps.py and the handler of aruba_agent/trap_receiver.py. The definitions
-- are passed on; the proofs are in the modules below.
mod Classify
mod Handler
pub mod Spaced
pub mod Rate
pub mod Tests
unfoldable pub use Classify.*
unfoldable pub use Handler.*

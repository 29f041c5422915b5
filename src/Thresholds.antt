-- ===== src/Thresholds.antt =====
-- The threshold engine: aruba_agent/thresholds.py and the runner aruba_agent/tasks/threshold_eval.py.
-- The definitions are passed on; the proofs are in the modules below.
mod Engine
pub mod Alternation
pub mod Sustained
pub mod Runner
pub mod Tests
unfoldable pub use Engine.*

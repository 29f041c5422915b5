-- ===== src/Interfaces.antt =====
-- The utilisation of interfaces: aruba_agent/interfaces.py and aruba_agent/tasks/interface_poll.py. The
-- definitions are passed on; the proofs are in the modules below.
mod Util
mod Poll
pub mod Percent
pub mod Bounds
pub mod Restart
pub mod Tests
unfoldable pub use Util.*
unfoldable pub use Poll.*

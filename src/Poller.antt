-- ===== src/Poller.antt =====
-- The reachability poller, aruba_agent/monitors/switch_poller.py.
mod Data
mod Probe
mod Alerts
mod Poll
mod PoolOps
pub mod Ladder
pub mod Dedup
pub mod Keeps
pub mod Health
pub mod Transitions
pub mod Pool
pub mod Tests
unfoldable pub use Data.*
unfoldable pub use Probe.*
unfoldable pub use Alerts.*
unfoldable pub use Poll.*
unfoldable pub use PoolOps.*

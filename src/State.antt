-- ===== src/State.antt =====
-- The shared state of the agent, aruba_agent/state.py, with the JSON store that it is saved in,
-- aruba_agent/store/json_store.py.
mod Data
mod Snapshot
mod Ops
mod Calls
pub mod Kept
pub mod Effect
pub mod Lookup
pub mod WellFormed
pub mod Restart
pub mod Durable
pub mod Mute
pub mod Tests
unfoldable pub use Data.*
unfoldable pub use Snapshot.*
unfoldable pub use Ops.*
unfoldable pub use Calls.*

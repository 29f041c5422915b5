-- ===== src/LocalAuth.antt =====
-- The local user store, aruba_agent/local_auth.py. The definitions are passed on; the proofs are in
-- the modules below.
mod Data
mod Users
mod Keys
mod Calls
pub mod Sound
pub mod Served
pub mod Staffed
pub mod SignIn
pub mod Tests
unfoldable pub use Data.*
unfoldable pub use Users.*
unfoldable pub use Keys.*
unfoldable pub use Calls.*

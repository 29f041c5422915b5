-- ===== src/Web.antt =====
-- The sign-in of the web application, aruba_agent/web/app.py, with the check of a passkey's answer
-- in aruba_agent/passkeys.py. The definitions are passed on; the proofs are in the modules below.
mod Throttle
mod Data
mod Login
mod Account
mod Guards
mod Visits
pub mod Evidence
pub mod Earned
pub mod Locked
pub mod Counted
pub mod Scoped
pub mod Guesses
pub mod Tests
unfoldable pub use Throttle.*
unfoldable pub use Data.*
unfoldable pub use Login.*
unfoldable pub use Account.*
unfoldable pub use Guards.*
unfoldable pub use Visits.*

-- ===== src/Tests.antt =====
-- Concrete instances of the parameters, and the theorems at concrete inputs.
pub mod OneObject
pub mod Server
pub mod Reconciles
pub mod Controllers
pub mod Watching
pub mod SizeStatuses
pub mod Groups
pub mod Successes
pub mod Conflicts
pub mod Samples
pub mod Selectors
pub mod Parsers
pub mod Cleanups
pub mod Sizes
pub mod Checks

-- ===== src/Controller.antt =====
-- The package controller: the cache of resources, the events that its changes make, and the functions
-- that reconcile them.
mod Methods
mod Cache
mod Events
mod Loop
mod Workflows
mod Subscriber
mod Builder
pub mod Entries
pub mod Diff
pub mod Changes
pub mod Replay
pub mod Invariant
pub mod Reachable
pub mod Tasks
pub mod Stages
pub mod Matching
pub mod Stores
pub mod Quiet
pub mod Given
pub mod Built
unfoldable pub use Methods.*
unfoldable pub use Cache.*
unfoldable pub use Events.*
unfoldable pub use Loop.*
unfoldable pub use Workflows.*
unfoldable pub use Subscriber.*
unfoldable pub use Builder.*

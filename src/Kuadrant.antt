-- ===== src/Kuadrant.antt =====
-- The merge of policies of examples/kuadrant/apis/v1: rate limit policies and the merge strategies.
mod Policies
mod Strategies
pub mod Rules
pub mod Merged
pub mod Merges
pub mod Valid
pub mod Effective
pub mod Decided
pub mod Precedence
unfoldable pub use Policies.*
unfoldable pub use Strategies.*

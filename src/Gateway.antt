-- ===== src/Gateway.antt =====
-- The Gateway API part of the machinery: its objects, links and topology.
mod Resources
mod Kinds
mod Methods
mod Objects
mod Options
mod Refs
mod Links
mod Http
mod Grpc
mod Tcp
mod Tls
mod Udp
mod Build
pub mod Locators
pub mod Listeners
pub mod Total
pub mod RoutesReturn
pub mod Returns
pub mod Expansion
pub mod Parents
pub mod Given
unfoldable pub use Resources.*
unfoldable pub use Kinds.*
unfoldable pub use Methods.*
unfoldable pub use Objects.*
unfoldable pub use Options.*
unfoldable pub use Refs.*
unfoldable pub use Links.*
unfoldable pub use Http.*
unfoldable pub use Grpc.*
unfoldable pub use Tcp.*
unfoldable pub use Tls.*
unfoldable pub use Udp.*
unfoldable pub use Build.*

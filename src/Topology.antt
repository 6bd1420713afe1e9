-- ===== src/Topology.antt =====
-- `NewTopology` of machinery/topology.go: the options, the index of policies by target, the graph
-- and the verdict on loops.
mod Options
mod Index
mod Build
pub mod Edges
pub mod Links
pub mod Graph
pub mod Policies
pub mod Correct
pub mod Returns
unfoldable pub use Options.*
unfoldable pub use Index.*
unfoldable pub use Build.*

-- ===== src/Dot.antt =====
-- The graph package: its interface and laws, and a graph that meets them.
mod Defs
pub mod Assoc
pub use Defs.{Dot, DotLaws}

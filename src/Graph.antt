-- ===== src/Graph.antt =====
-- packages/graph_engine: the temporal identity graph, its metrics, signals and clusters.
pub mod Registry
pub mod Domain
pub mod State
pub mod Engine
mod Tests
mod SearchTests

-- ===== src/Lineage.antt =====
-- app/domain/lineage and app/application/lineage: column mappings, the graph that they span, and
-- the traversal that lists what a column is derived from or what it feeds.
pub mod Mapping
pub mod Graph
pub mod Trace
mod Tests

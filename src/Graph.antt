-- ===== src/Graph.antt =====
-- internal/graph: the task DAG and what is dispatched from it.
pub mod Task
pub mod Db
pub mod Cycle
pub mod Value
pub mod Dag
pub mod Update
pub mod Invariant
pub mod Ready
pub mod DepGraph
pub mod Cross

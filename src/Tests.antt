-- ===== src/Tests.antt =====
-- Concrete inputs: runs of the definitions, and the theorems at inputs that meet their hypotheses.
pub mod Samples
pub mod GraphRuns
pub mod BacklogRuns
pub mod DispatchRuns
pub mod AgentRuns
pub mod FailureRuns
pub mod WorkflowRuns
pub mod StoreRuns
pub mod StageRuns
pub mod DispatcherRuns

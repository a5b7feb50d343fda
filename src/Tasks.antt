-- ===== src/Tasks.antt =====
-- The receipts of tool calls, go/task_graph.go: a call that costs money is not made twice.
pub mod Store
pub mod Operation
pub mod Call
pub mod Checkpoint
pub mod Persistent
pub mod Restored
pub mod Resumed
pub mod Rows
pub mod Checks
pub mod Once
pub mod Reuse
pub mod Scenarios
pub mod CheckpointScenarios

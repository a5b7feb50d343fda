-- ===== src/Search.antt =====
-- The receipts of the web searches of a run: go/tool_runtime.go, the retry of a task of
-- go/task_graph.go and the recovery after a crash of go/runtime_recovery.go.

pub mod Store
pub mod Research
pub mod Recover
pub mod Steps
pub mod Rows
pub mod Kept
pub mod Cached
pub mod Budget
pub mod Again
pub mod Scenarios

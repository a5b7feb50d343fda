-- ===== src/Jobs.antt =====
-- Durable jobs, go/durable_jobs.go: work that outlives a run, its worker and the process.
pub mod Status
pub mod Store
pub mod Goal
pub mod Create
pub mod Manage
pub mod Worker
pub mod Finish
pub mod Reconcile
pub mod Rows
pub mod Gate
pub mod Claim
pub mod Steps
pub mod Identity
pub mod Settled
pub mod Fence
pub mod Log
pub mod Again
pub mod Rounds
pub mod WorkerLoop
pub mod Only
pub mod Unclaimed
pub mod Recurring
pub mod Expired
pub mod Statements
pub mod Moved
pub mod Liveness
pub mod Drained
pub mod Command
pub mod Owned
pub mod Effects
pub mod Scenarios
pub mod RoundScenarios
pub mod HistoryScenarios
pub mod CommandScenarios

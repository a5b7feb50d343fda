-- ===== src/Intents.antt =====
-- The admission of a task intent and the check that a task is current, go/task_intent.go.
pub mod Store
pub mod Prior
pub mod Changes
pub mod Admit
pub mod Rows
pub mod Kept
pub mod Revised
pub mod Superseded
pub mod Scenarios

-- ===== src/Tasks/Reuse.antt =====
-- `executePersistentToolCall` of go/task_graph.go after a call that succeeded: its receipt answers.

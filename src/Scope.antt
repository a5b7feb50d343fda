-- ===== src/Scope.antt =====
-- The isolation boundary of one inbound interaction, go/runtime_scope.go: the keys under which its
-- conversation, its sender and its memories are stored.
pub mod Decimal
pub mod Keys
pub mod Parts
pub mod RoundTrip
pub mod Isolation
pub mod Scenarios

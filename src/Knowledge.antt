-- ===== src/Knowledge.antt =====
-- The knowledge base, go/rag_runtime.go and go/vector_search.go: how a document is cut into chunks.
pub mod Chunks
pub mod Cover
pub mod Namespaces
pub mod Scenarios

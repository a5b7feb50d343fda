-- ===== src/Replies.antt =====
-- Replies, go/reply_segmentation.go: how a long answer is sent in parts.
pub mod Segments
pub mod Lossless
pub mod Few
pub mod Scenarios

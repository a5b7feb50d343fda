-- ===== src/Wechat.antt =====
-- The plaintext of the WeChat callbacks, go/wechat_crypto.go: its padding and its frame.
pub mod Frame
pub mod RoundTrip
pub mod Scenarios

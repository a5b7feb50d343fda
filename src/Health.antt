-- ===== src/Health.antt =====
-- The health of a model endpoint, go/provider_health.go: three failures in a row take it out of the
-- routing, two successes in a row bring it back.
pub mod Store
pub mod Samples
pub mod Scenarios

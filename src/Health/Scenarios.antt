-- ===== src/Health/Scenarios.antt =====
-- Runs of the health of endpoints of go/provider_health.go.
use erdai_agent.Prelude.{false, ◌≡◌, []}
use erdai_agent.Core.{Stamp}
use erdai_agent.Health.Store.{HealthDb, find_health, row_healthy, record_health}
use erdai_agent.Health.Samples.{
  HealthReach, opens, checks, Tripped, samples_of, HealthReach-Tripped,
}

abbrev noon : Stamp
noon = record { text = "2026-11-26T04:00:00Z"; instant = 4 }

abbrev fail : HealthDb → HealthDb
fail db = record_health noon db "m1" false 10 "timeout"

abbrev three_failures : HealthDb
three_failures = fail (fail (fail (record { rows = []; samples = [] })))

history : HealthReach three_failures
history =
    checks noon "m1" false 10 "timeout"
      (checks noon "m1" false 10 "timeout" (checks noon "m1" false 10 "timeout" opens))

HealthReach-Tripped_example :
    (row_healthy (find_health "m1" three_failures.rows) ≡ false
      → Tripped (samples_of "m1" three_failures.samples))
    × (Tripped (samples_of "m1" three_failures.samples)
        → row_healthy (find_health "m1" three_failures.rows) ≡ false)
HealthReach-Tripped_example = HealthReach-Tripped history "m1"

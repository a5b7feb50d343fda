-- ===== src/Health/Store.antt =====
-- `recordProviderHealth` of go/provider_health.go on the tables `model_health` and
-- `model_health_samples`. The samples stand newest first.
use erdai_agent.Prelude.{
  ℕ, suc, leb, Bool, true, false, not, if◌then◌else◌, String, Option, none, some, str_eq, List, [],
  ◌∷◌,
}
use erdai_agent.Core.{Stamp}

-- a row of `model_health`; the error rate is 0 or 1
pub record HealthRow : Type 0 where
  pub endpoint_id : String
  pub healthy : Bool
  pub latency_ms : ℕ
  pub errs : Bool
  pub consecutive_failures : ℕ
  pub status_message : String
  pub checked_at : Stamp

-- a row of `model_health_samples`
pub record Sample : Type 0 where
  pub endpoint_id : String
  pub healthy : Bool
  pub latency_ms : ℕ
  pub errs : Bool
  pub status_message : String
  pub checked_at : Stamp

pub record HealthDb : Type 0 where
  pub rows : List HealthRow
  pub samples : List Sample

unfoldable pub find_health : String → List HealthRow → Option HealthRow
find_health id [] = none
find_health id (r ∷ rs) = if str_eq r.endpoint_id id then some r else find_health id rs

-- SELECT healthy … ORDER BY id DESC LIMIT 1
unfoldable pub last_sample : String → List Sample → Option Bool
last_sample id [] = none
last_sample id (s ∷ ss) = if str_eq s.endpoint_id id then some s.healthy else last_sample id ss

-- an endpoint without a row is healthy
abbrev pub row_healthy : Option HealthRow → Bool
row_healthy none = true
row_healthy (some r) = r.healthy

abbrev pub row_failures : Option HealthRow → ℕ
row_failures none = 0
row_failures (some r) = r.consecutive_failures

abbrev pub was_healthy : Option Bool → Bool
was_healthy none = false
was_healthy (some b) = b

abbrev pub next_failures : Bool → ℕ → ℕ
next_failures healthy failures = if healthy then 0 else suc failures

-- `routingHealthy` after a check
abbrev pub next_healthy : Bool → Bool → ℕ → Option Bool → Bool
next_healthy healthy routing failures previous =
    if healthy
    then (if routing then true else was_healthy previous)
    else if leb 3 failures
    then false
    else routing

-- INSERT … ON CONFLICT(endpoint_id) DO UPDATE
unfoldable pub put_health : HealthRow → List HealthRow → List HealthRow
put_health r [] = r ∷ []
put_health r (q ∷ qs) =
    let rest = put_health r qs in if str_eq q.endpoint_id r.endpoint_id then r ∷ qs else q ∷ rest

unfoldable pub record_health : Stamp → HealthDb → String → Bool → ℕ → String → HealthDb
record_health now db id healthy latency message =
    let row = find_health id db.rows in
    let failures = next_failures healthy (row_failures row) in
    record {
      rows =
          put_health
            (record {
              endpoint_id = id;
              healthy = next_healthy healthy (row_healthy row) failures (last_sample id db.samples);
              latency_ms = latency;
              errs = not healthy;
              consecutive_failures = failures;
              status_message = message;
              checked_at = now;
            })
            db.rows;
      samples =
          record {
            endpoint_id = id;
            healthy = healthy;
            latency_ms = latency;
            errs = not healthy;
            status_message = message;
            checked_at = now;
          }
          ∷ db.samples;
    }

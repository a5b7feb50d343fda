-- ===== src/Quota/Usage.antt =====
-- The reservations of go/media_quota.go: `reserveSubject`, `commit` and `release`, and the reset of
-- `initSchema`.
use erdai_agent.Prelude.{
  ℕ, suc, ◌+◌, ◌-◌, ltb, ◌==◌, ◌||◌, if◌then◌else◌, String, str_eq, List, [], ◌∷◌,
}
use erdai_agent.Core.{Stamp, Result, ok, err, ◌>>=◌, guard, conflict, failed}
use erdai_agent.Text.{trim_space}
use erdai_agent.Jobs.Create.{legacy_agent_instance_id}
use erdai_agent.Quota.Store.{
  Kind, limit, UsageKey, Usage, QuotaDb, same_usage, active, update_usage, count_usage,
}

-- what a call reads of the world: the clock, the day in Shanghai, and the keyed digest of the
-- instance and the sender
pub record QuotaEnv : Type 0 where
  pub at : Stamp
  pub today : String
  pub digest : String → String → String

-- `newMediaQuotaStore` … `initSchema` on a table that exists: reservations do not survive a restart
unfoldable pub reset_reserved : Stamp → List Usage → List Usage
reset_reserved now us =
    update_usage (λ u. ltb 0 u.reserved) (λ u. record u { reserved = 0; updated_at = now }) us

unfoldable pub restart : QuotaEnv → QuotaDb → QuotaDb
restart e db = record db { usage = reset_reserved e.at db.usage }

-- INSERT … ON CONFLICT DO UPDATE … WHERE used + reserved < ceiling RETURNING; an error returns no row
unfoldable pub upsert : Stamp → ℕ → UsageKey → List Usage → Result (List Usage)
upsert now ceiling k [] = ok (record { key = k; used = 0; reserved = 1; updated_at = now } ∷ [])
upsert now ceiling k (u ∷ us) =
    let rest = upsert now ceiling k us in
    if same_usage u.key k
    then if ltb (u.used + u.reserved) ceiling
      then ok (record u { reserved = suc u.reserved; updated_at = now } ∷ us)
      else err (conflict "daily quota exceeded")
    else (rest >>= λ us'. ok (u ∷ us'))

-- the statement of `reserveSubject`: nothing is inserted under a limit of 0
unfoldable pub reserve_row : Stamp → ℕ → UsageKey → List Usage → Result (List Usage)
reserve_row now ceiling k us =
    let rest = upsert now ceiling k us in
    if ltb 0 ceiling then rest else err (conflict "daily quota exceeded")

abbrev pub usage_key : QuotaEnv → String → String → Kind → UsageKey
usage_key e instance sender kind = record {
  subject = e.digest (trim_space instance) sender;
  day = e.today;
  kind = kind;
}

abbrev pub reserved_in : QuotaDb → UsageKey → List Usage → Result (QuotaDb × UsageKey)
reserved_in db k us = ok (record db { usage = us }, k)

-- the two kinds are the only values here
unfoldable pub reserve_subject :
    QuotaEnv → QuotaDb → String → String → Kind → Result (QuotaDb × UsageKey)
reserve_subject e db instance sender kind =
    let k = usage_key e instance sender kind in
    if str_eq (trim_space sender) ""
    then err (failed "media quota identity or kind is invalid")
    else (reserve_row e.at (limit db.config kind) k db.usage >>= reserved_in db k)

-- `reserveForRun`: a run from before the instances keeps its digest
unfoldable pub quota_instance : String → String
quota_instance id =
    let id' = trim_space id in
    if str_eq id' "" || str_eq id' legacy_agent_instance_id then "" else id'

unfoldable pub reserve_for_run :
    QuotaEnv → QuotaDb → String → String → Kind → Result (QuotaDb × UsageKey)
reserve_for_run e db instance sender kind =
    reserve_subject e db (quota_instance instance) sender kind

abbrev pub committed_row : Stamp → Usage → Usage
committed_row now u = record u { reserved = u.reserved - 1; used = suc u.used; updated_at = now }

abbrev pub released_row : Stamp → Usage → Usage
released_row now u = record u { reserved = u.reserved - 1; updated_at = now }

-- an UPDATE that `requireSingleQuotaReservation` checks; the statement's effect stays
abbrev pub settle_usage : (Usage → Usage) → UsageKey → QuotaDb → QuotaDb × Result (Unit {0})
settle_usage f k db = (
  record db { usage = update_usage (active k) f db.usage },
  guard (count_usage (active k) db.usage == 1)
      (failed "media quota reservation is no longer active"),
)

unfoldable pub commit : QuotaEnv → UsageKey → QuotaDb → QuotaDb × Result (Unit {0})
commit e k db = settle_usage (committed_row e.at) k db

unfoldable pub release : QuotaEnv → UsageKey → QuotaDb → QuotaDb × Result (Unit {0})
release e k db = settle_usage (released_row e.at) k db

-- ===== src/Quota/Media.antt =====
-- `executeQuotaMedia` of go/media_quota.go. The media call is a parameter: it returns a result or an
-- error, and other runs may change the tables while it works.
use erdai_agent.Prelude.{Bool, if◌then◌else◌, String}
use erdai_agent.Core.{Result, ok, err}
use erdai_agent.Quota.Store.{Kind, UsageKey, QuotaDb}
use erdai_agent.Quota.Policy.{exempts}
use erdai_agent.Quota.Usage.{QuotaEnv, reserve_for_run, commit, release}

-- what `executeQuotaMedia` reads of a run
pub record Run : Type 0 where
  pub instance : String
  pub sender_ref : String
  pub is_admin : Bool

-- a commit that fails is followed by the deferred release
abbrev pub after_commit {ℓ} :
    {A : Type ℓ} → QuotaEnv → UsageKey → A → QuotaDb × Result (Unit {0}) → QuotaDb × Result A
after_commit e k a (db, ok u) = (db, ok a)
after_commit e k a (db, err x) = ((release e k db).0, err x)

abbrev pub after_call {ℓ} :
    {A : Type ℓ} → QuotaEnv → UsageKey → QuotaDb × Result A → QuotaDb × Result A
after_call e k (db, err x) = ((release e k db).0, err x)
after_call e k (db, ok a) = after_commit e k a (commit e k db)

-- the call, once a unit is reserved
abbrev pub with_reservation {ℓ} :
    {A : Type ℓ}
    → QuotaEnv
    → QuotaDb
    → Result (QuotaDb × UsageKey)
    → (QuotaDb → QuotaDb × Result A)
    → QuotaDb × Result A
with_reservation e db (err x) call = (db, err x)
with_reservation e db (ok (db', k)) call = after_call e k (call db')

unfoldable pub execute_quota_media {ℓ} :
    {A : Type ℓ}
    → QuotaEnv
    → QuotaDb
    → Run
    → Kind
    → (QuotaDb → QuotaDb × Result A)
    → QuotaDb × Result A
execute_quota_media e db run kind call =
    if exempts db.config run.sender_ref run.is_admin
    then call db
    else with_reservation e db (reserve_for_run e db run.instance run.sender_ref kind) call

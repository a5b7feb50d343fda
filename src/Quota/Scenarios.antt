-- ===== src/Quota/Scenarios.antt =====
-- Runs of the quota of go/media_quota.go on concrete tables.
use erdai_agent.Prelude.{ℕ, ◌+◌, ◌≤◌, ◌<◌, true, false, ◌≡◌, refl, arith, [], ◌∷◌, All, ◌⊎◌, str_eq}
use erdai_agent.Core.{Stamp, Result, ok, err, conflict}
use erdai_agent.Text.{trim_space}
use erdai_agent.Quota.Store.{Kind, image, Config, limit, UsageKey, QuotaDb, same_usage}
use erdai_agent.Quota.Policy.{exempts, whitelisted}
use erdai_agent.Quota.Usage.{
  QuotaEnv, usage_key, quota_instance, reserve_for_run, reserve_subject, reserve_row, upsert,
  commit,
}
use erdai_agent.Quota.Media.{Run, execute_quota_media}
use erdai_agent.Quota.Limits.{Within, installs, continues, takes, commits, QuotaReach-Within}
use erdai_agent.Quota.Counts.{counts}
use erdai_agent.Quota.Cost.{charged, execute_quota_media-cost}

abbrev noon : Stamp
noon = record { text = "2026-11-26T04:00:00Z"; instant = 4 }

abbrev world : QuotaEnv
world = record { at = noon; today = "2026-11-26"; digest = λ instance_id sender. sender }

abbrev policy : Config
policy = record {
  image_daily_limit = 2;
  video_daily_limit = 1;
  trusted_admin_bypass = true;
  whitelist = [];
  updated_at = noon;
}

abbrev run : Run
run = record { instance = ""; sender_ref = "7"; is_admin = false }

abbrev one_used : QuotaDb
one_used = record {
  config = policy;
  usage =
      record {
        key = record { subject = "7"; day = "2026-11-26"; kind = image };
        used = 1;
        reserved = 0;
        updated_at = noon;
      }
      ∷ [];
}

abbrev fresh : QuotaDb
fresh = record { config = policy; usage = [] }

abbrev table_of : Result (QuotaDb × UsageKey) → QuotaDb
table_of (ok (db, k)) = db
table_of (err x) = fresh

abbrev key : UsageKey
key = usage_key world "" "7" image

abbrev taken : Result (QuotaDb × UsageKey)
taken = reserve_for_run world fresh "" "7" image

taken_eq : taken ≡ ok (table_of taken, key)
unfolding reserve_for_run reserve_subject reserve_row upsert quota_instance trim_space
taken_eq = refl

within : (k : Kind) → limit policy k ≤ limit policy k
within k = omega arith

QuotaReach-Within_example : All (Within (limit policy)) (commit world key (table_of taken)).0.usage
QuotaReach-Within_example = QuotaReach-Within (limit policy) (
    continues (continues (installs policy within) (takes world "" "7" image key taken_eq))
      (commits world key))

not_exempt : exempts policy "7" false ≡ false
unfolding exempts whitelisted trim_space
not_exempt = refl

sender_named : str_eq (trim_space "7") "" ≡ false
unfolding trim_space
sender_named = refl

abbrev picture : Result ℕ
picture = ok 5

execute_quota_media-cost_example :
    let k = usage_key world (quota_instance "") "7" image in
    let c = counts k one_used.usage in
    let out = execute_quota_media world one_used run image (λ d. (d, picture)) in
    ((c.0 + c.1 < 2)
      × ((out.1 ≡ picture)
          × (counts k out.0.usage ≡ (charged picture c.0, c.1))
          × ((j : UsageKey)
              → same_usage k j ≡ false
              → counts j out.0.usage ≡ counts j one_used.usage)))
    ⊎ ((2 ≤ c.0 + c.1) × (out ≡ (one_used, err (conflict "daily quota exceeded"))))
execute_quota_media-cost_example =
    execute_quota_media-cost world one_used run image picture (tt, tt) not_exempt sender_named

-- ===== src/Quota/Cost.antt =====
-- What one run of `executeQuotaMedia` of go/media_quota.go costs its subject.
use erdai_agent.Prelude.{
  ℕ, suc, ◌+◌, ◌-◌, ◌≤◌, ◌<◌, false, String, ◌≡◌, refl, arith, List, inl, inr, ◌⊎◌, subst, sym, ap,
  ◌∙◌, str_eq,
}
use erdai_agent.Core.{Result, ok, err, ◌>>=◌, conflict}
use erdai_agent.Text.{trim_space}
use erdai_agent.Quota.Store.{
  Kind, limit, UsageKey, Usage, QuotaDb, same_usage, active, update_usage, count_usage,
}
use erdai_agent.Quota.Policy.{exempts}
use erdai_agent.Quota.Usage.{
  QuotaEnv, reserve_row, usage_key, quota_instance, reserve_for_run, committed_row, released_row,
  commit, release, reserved_in, reserve_subject,
}
use erdai_agent.Quota.Media.{Run, execute_quota_media, after_call, after_commit, with_reservation}
use erdai_agent.Quota.Limits.{reserve_row-upsert}
use erdai_agent.Quota.Counts.{
  KeyedUsage, counts, upsert-counts, Keyed-upsert, settle-counts, reserve_row-full,
}

abbrev pub charged {ℓ} : {A : Type ℓ} → Result A → ℕ → ℕ
charged (ok a) n = suc n
charged (err x) n = n

reserve_for_run-eq :
    (e : QuotaEnv) (db : QuotaDb) (i sender : String) (kind : Kind) (q : Result (List Usage))
    → str_eq (trim_space sender) "" ≡ false
    → reserve_row e.at (limit db.config kind) (usage_key e (quota_instance i) sender kind) db.usage
      ≡ q
    → reserve_for_run e db i sender kind
      ≡ (q >>= reserved_in db (usage_key e (quota_instance i) sender kind))
unfolding reserve_for_run reserve_subject
reserve_for_run-eq e db i sender kind q n h =
    rw n (ap (λ m. m >>= reserved_in db (usage_key e (quota_instance i) sender kind)) h)

execute_eq {ℓ} :
    {A : Type ℓ} (e : QuotaEnv) (db : QuotaDb) (run : Run) (kind : Kind)
    (call : QuotaDb → QuotaDb × Result A) (q : Result (QuotaDb × UsageKey))
    → exempts db.config run.sender_ref run.is_admin ≡ false
    → reserve_for_run e db run.instance run.sender_ref kind ≡ q
    → execute_quota_media e db run kind call ≡ with_reservation e db q call
unfolding execute_quota_media
execute_eq e db run kind call q x h = rw x (ap (λ m. with_reservation e db m call) h)

commit_eq :
    (e : QuotaEnv) (k : UsageKey) (db : QuotaDb)
    → count_usage (active k) db.usage ≡ 1
    → commit e k db
      ≡ (record db { usage = update_usage (active k) (committed_row e.at) db.usage }, ok tt)
unfolding commit
commit_eq e k db h = rw h refl

-- the key has its units as before, and one more used where the call succeeded
abbrev Paid {ℓ} : {A : Type ℓ} → UsageKey → List Usage → Result A → QuotaDb × Result A → Type ℓ
Paid k us r out =
    (out.1 ≡ r)
    × (counts k out.0.usage ≡ (charged r (counts k us).0, (counts k us).1))
    × ((j : UsageKey) → same_usage k j ≡ false → counts j out.0.usage ≡ counts j us)

pred_suc : (n : ℕ) → suc n - 1 ≡ n
pred_suc n = omega arith

after_call-Paid {ℓ} :
    {A : Type ℓ} (e : QuotaEnv) (k : UsageKey) (db : QuotaDb) (us : List Usage) (r : Result A)
    → KeyedUsage db.usage
    → counts k db.usage ≡ ((counts k us).0, suc (counts k us).1)
    → ((j : UsageKey) → same_usage k j ≡ false → counts j db.usage ≡ counts j us)
    → Paid k us r (after_call e k (db, r))
unfolding release
after_call-Paid e k db us (ok a) v c o =
    let (n, d, others) =
      settle-counts k (committed_row e.at) (λ x y. (suc x, y - 1)) (λ u. refl) (λ u. refl) db.usage
        (counts k us).1 v (ap (λ p. p.1) c) in
    subst (λ m. Paid k us (ok a) (after_commit e k a m)) (sym (commit_eq e k db n))
      (
        refl,
        d
            ∙ ap (λ p. (suc p.0, p.1 - 1)) c
            ∙ ap (λ n. (suc (counts k us).0, n)) (pred_suc (counts k us).1),
        λ j m. others j m ∙ o j m,
      )
after_call-Paid e k db us (err x) v c o =
    let (n, d, others) =
      settle-counts k (released_row e.at) (λ x y. (x, y - 1)) (λ u. refl) (λ u. refl) db.usage
        (counts k us).1 v (ap (λ p. p.1) c) in
    (
      refl,
      d ∙ ap (λ p. (p.0, p.1 - 1)) c ∙ ap (λ n. ((counts k us).0, n)) (pred_suc (counts k us).1),
      λ j m. others j m ∙ o j m,
    )

-- A run that is not exempt, while no other run changes the tables, makes the media call exactly
-- while the units used and reserved for its subject, day and kind are fewer than the limit. Then its
-- result is the call's, one unit more is used if the call succeeded and none if it failed, nothing
-- stays reserved, and no other subject, day or kind is charged. At the limit the run is refused and
-- the tables are as they were.
pub execute_quota_media-cost {ℓ} :
    {A : Type ℓ} (e : QuotaEnv) (db : QuotaDb) (run : Run) (kind : Kind) (r : Result A)
    → KeyedUsage db.usage
    → exempts db.config run.sender_ref run.is_admin ≡ false
    → str_eq (trim_space run.sender_ref) "" ≡ false
    → let k = usage_key e (quota_instance run.instance) run.sender_ref kind in
      let c = counts k db.usage in
      let out = execute_quota_media e db run kind (λ d. (d, r)) in
      ((c.0 + c.1 < limit db.config kind) × Paid k db.usage r out)
      ⊎ ((limit db.config kind ≤ c.0 + c.1) × (out ≡ (db, err (conflict "daily quota exceeded"))))
execute_quota_media-cost e db run kind r v x n =
    let k = usage_key e (quota_instance run.instance) run.sender_ref kind in
    elim (reserve_row-full e.at (limit db.config kind) k db.usage) [
      | inl (us, p, l) ↦
          let q =
            execute_eq e db run kind (λ d. (d, r)) (ok (record db { usage = us }, k)) x
              (reserve_for_run-eq e db run.instance run.sender_ref kind (ok us) n p) in
          let (z, p') = reserve_row-upsert e.at (limit db.config kind) k db.usage p in
          let (c, o) = upsert-counts e.at (limit db.config kind) k db.usage p' in
          inl (
            l,
            subst (Paid k db.usage r) (sym q) (
                after_call-Paid e k (record db { usage = us }) db.usage r
                  (Keyed-upsert e.at (limit db.config kind) k db.usage p' v) c o),
          )
      | inr (p, l) ↦ inr (
        l,
        execute_eq e db run kind (λ d. (d, r)) (err (conflict "daily quota exceeded")) x
            (reserve_for_run-eq e db run.instance run.sender_ref kind
              (err (conflict "daily quota exceeded")) n p),
      )
    ]

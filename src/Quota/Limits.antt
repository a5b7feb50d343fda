-- ===== src/Quota/Limits.antt =====
-- The limit of go/media_quota.go over histories: what is used and what is reserved, together.
use erdai_agent.Prelude.{
  ℕ, suc, ◌+◌, ◌≤◌, ltb, Bool, true, String, ◌≡◌, arith, List, [], ◌∷◌, All, ℤ, inl, inr,
  Bool-cases, subst, sym, ap, str_eq, ltb→lt, ◌&&◌,
}
use erdai_agent.Core.{Stamp, ok, ◌>>=◌, >>=-eq-ok, failed, guard}
use erdai_agent.Text.{trim_space}
use erdai_agent.Quota.Store.{
  Kind, Config, limit, UsageKey, Usage, QuotaDb, same_usage, active, update_usage, WhitelistEntry,
}
use erdai_agent.Quota.Policy.{update_policy, limit_valid, normalize_whitelist}
use erdai_agent.Quota.Usage.{
  QuotaEnv, restart, reset_reserved, upsert, reserve_row, usage_key, reserve_subject,
  quota_instance, reserve_for_run, reserved_in, committed_row, released_row, commit, release,
}

abbrev pub Within : (Kind → ℕ) → Usage → Type 0
Within b u = u.used + u.reserved ≤ b u.key.kind

update_usage-All :
    (P : Usage → Type 0) (test : Usage → Bool) (f : Usage → Usage)
    → ((u : Usage) → test u ≡ true → P u → P (f u))
    → (us : List Usage) → All P us
    → All P (update_usage test f us)
unfolding update_usage
update_usage-All P test f k [] h = tt
update_usage-All P test f k (u ∷ us) h = (
  elim (Bool-cases (test u)) [ inl y ↦ rw y (k u y h.0) | inr n ↦ rw n h.0 ],
  update_usage-All P test f k us h.1,
)

same_usage-kind : (a b : UsageKey) → same_usage a b ≡ true → a.kind ≡ b.kind
same_usage-kind a b h = ground arith

upsert-Within :
    (b : Kind → ℕ) (now : Stamp) (ceiling : ℕ) (k : UsageKey) (us : List Usage) {us' : List Usage}
    → ceiling ≤ b k.kind
    → ltb 0 ceiling ≡ true
    → upsert now ceiling k us ≡ ok us'
    → All (Within b) us
    → All (Within b) us'
unfolding upsert
upsert-Within b now ceiling k [] {us'} c z h v =
    let q : us' ≡ record { key = k; used = 0; reserved = 1; updated_at = now } ∷ [] =
      ground arith in
    let z' = ltb→lt 0 ceiling z in
    let w : 0 + 1 ≤ b k.kind = omega arith in subst (All (Within b)) (sym q) (w, tt)
upsert-Within b now ceiling k (u ∷ us) {us'} c z h v = elim (Bool-cases (same_usage u.key k)) [
  | inl y ↦ elim (Bool-cases (ltb (u.used + u.reserved) ceiling)) [
    | inl l ↦
        let q : us' ≡ record u { reserved = suc u.reserved; updated_at = now } ∷ us =
          ground arith in
        let l' = ltb→lt _ _ l in
        let e = ap b (same_usage-kind u.key k y) in
        let w : u.used + suc u.reserved ≤ b u.key.kind = omega arith in
        subst (All (Within b)) (sym q) (w, v.1)
    | inr m ↦ absurd (ground arith)
  ]
  | inr n ↦
      let h' : (upsert now ceiling k us >>= λ rest. ok (u ∷ rest)) ≡ ok us' = rw n at h in
      let (rest, p, h₁) = >>=-eq-ok (upsert now ceiling k us) (λ rest. ok (u ∷ rest)) h' in
      let q : us' ≡ u ∷ rest = ground arith in
      subst (All (Within b)) (sym q) (v.0, upsert-Within b now ceiling k us c z p v.1)
]

-- one operation on the tables; a new policy stays within the bound
pub data QuotaStep (b : Kind → ℕ) (db : QuotaDb) : QuotaDb → Type 0 where
  restarts : (e : QuotaEnv) → QuotaStep b db (restart e db)
  decides :
      {db' : QuotaDb} (now : Stamp) (image_limit video_limit : ℤ) (bypass : Bool)
      (ws : List WhitelistEntry)
      → update_policy now db image_limit video_limit bypass ws ≡ ok db'
      → ((k : Kind) → limit db'.config k ≤ b k)
      → QuotaStep b db db'
  takes :
      {db' : QuotaDb} (e : QuotaEnv) (instance_id sender : String) (kind : Kind) (k : UsageKey)
      → reserve_for_run e db instance_id sender kind ≡ ok (db', k)
      → QuotaStep b db db'
  commits : (e : QuotaEnv) (k : UsageKey) → QuotaStep b db (commit e k db).0
  releases : (e : QuotaEnv) (k : UsageKey) → QuotaStep b db (release e k db).0

pub data QuotaReach (b : Kind → ℕ) : QuotaDb → Type 0 where
  installs :
      (c : Config)
      → ((k : Kind) → limit c k ≤ b k)
      → QuotaReach b (record { config = c; usage = [] })
  continues : {db db' : QuotaDb} → QuotaReach b db → QuotaStep b db db' → QuotaReach b db'

abbrev Bounded : (Kind → ℕ) → QuotaDb → Type 0
Bounded b db = ((k : Kind) → limit db.config k ≤ b k) × All (Within b) db.usage

update_policy-usage :
    (now : Stamp) (db : QuotaDb) (i v : ℤ) (bypass : Bool) (ws : List WhitelistEntry)
    {db' : QuotaDb}
    → update_policy now db i v bypass ws ≡ ok db'
    → db'.usage ≡ db.usage
unfolding update_policy
update_policy-usage now db i v bypass ws {db'} h =
    let (_, _, h₁) =
      >>=-eq-ok
        (guard (limit_valid i && limit_valid v)
          (failed "media daily limits must be between 0 and 100"))
        _ h in
    let (entries, _, h₂) = >>=-eq-ok (normalize_whitelist ws) _ h₁ in ground arith

pub reserve_for_run-row :
    (e : QuotaEnv) (db : QuotaDb) (i sender : String) (kind : Kind) {db' : QuotaDb} {k : UsageKey}
    → reserve_for_run e db i sender kind ≡ ok (db', k)
    → (k ≡ usage_key e (quota_instance i) sender kind)
      × (us : List Usage) × (reserve_row e.at (limit db.config kind) k db.usage ≡ ok us)
      × (db' ≡ record db { usage = us })
unfolding reserve_for_run reserve_subject
reserve_for_run-row e db i sender kind {db'} {k} h =
    let k₀ = usage_key e (quota_instance i) sender kind in
    elim (Bool-cases (str_eq (trim_space sender) "")) [
      | inl y ↦ absurd (ground arith)
      | inr n ↦
          let h' : (reserve_row e.at (limit db.config kind) k₀ db.usage >>= reserved_in db k₀)
              ≡ ok (db', k) =
            rw n at h in
          let (us, p, h₁) =
            >>=-eq-ok (reserve_row e.at (limit db.config kind) k₀ db.usage) (reserved_in db k₀)
              h' in
          let q : k₀ ≡ k = ground arith in
          (
            sym q,
            us,
            subst (λ j. reserve_row e.at (limit db.config kind) j db.usage ≡ ok us) q p,
            ground arith,
          )
    ]

pub reserve_row-upsert :
    (now : Stamp) (ceiling : ℕ) (k : UsageKey) (us : List Usage) {us' : List Usage}
    → reserve_row now ceiling k us ≡ ok us'
    → (ltb 0 ceiling ≡ true) × (upsert now ceiling k us ≡ ok us')
unfolding reserve_row
reserve_row-upsert now ceiling k us h = ground arith

QuotaStep-Bounded :
    (b : Kind → ℕ) {db db' : QuotaDb} → QuotaStep b db db' → Bounded b db → Bounded b db'
unfolding restart reset_reserved commit release
QuotaStep-Bounded b {db} (restarts e) v =
    (v.0, update_usage-All (Within b) _ _ (λ u y w. omega arith) db.usage v.1)
QuotaStep-Bounded b {db} (decides {db'} now i j bypass ws h c) v =
    (c, subst (All (Within b)) (sym (update_policy-usage now db i j bypass ws h)) v.1)
QuotaStep-Bounded b {db} (takes {db'} e i sender kind k h) v =
    let (p, us, r, q) = reserve_for_run-row e db i sender kind h in
    let (z, r') = reserve_row-upsert e.at (limit db.config kind) k db.usage r in
    let c : limit db.config kind ≤ b k.kind =
      subst (λ m. limit db.config kind ≤ b m.kind) (sym p) (v.0 kind) in
    subst (Bounded b) (sym q)
      (v.0, upsert-Within b e.at (limit db.config kind) k db.usage c z r' v.1)
QuotaStep-Bounded b {db} (commits e k) v = (
  v.0,
  update_usage-All (Within b) (active k) (committed_row e.at) (λ u y w. ground arith) db.usage v.1,
)
QuotaStep-Bounded b {db} (releases e k) v = (
  v.0,
  update_usage-All (Within b) (active k) (released_row e.at) (λ u y w. omega arith) db.usage v.1,
)

QuotaReach-Bounded : (b : Kind → ℕ) {db : QuotaDb} → QuotaReach b db → Bounded b db
QuotaReach-Bounded b (installs c h) = (h, tt)
QuotaReach-Bounded b (continues r s) = QuotaStep-Bounded b s (QuotaReach-Bounded b r)

-- In every history of reservations, commits, releases, restarts and changes of the policy, in any
-- order and of any runs, no subject has more units used and reserved together, for a day and a kind,
-- than any bound that the limits of all policies in force kept to.
pub QuotaReach-Within : (b : Kind → ℕ) {db : QuotaDb} → QuotaReach b db → All (Within b) db.usage
QuotaReach-Within b r = (QuotaReach-Bounded b r).1

-- ===== src/Jobs/Identity.antt =====
-- The identity of a job in go/durable_jobs.go: its primary key, and the unique index over the owner,
-- the workspace and a key that is not empty. No operation changes them.
use erdai_agent.Prelude.{
  Bool, false, not, ◌&&◌, String, none, some, ◌≡◌, refl, arith, List, [], ◌∷◌, ◌++◌, map, All, inl,
  inr, Bool-cases, ap, subst, sym, str_eq, ◌∙◌,
}
use erdai_agent.Core.{Env}
use erdai_agent.Jobs.Status.{queued, leased, running}
use erdai_agent.Jobs.Store.{Job, Store, find_job, update_where, has_id}
use erdai_agent.Jobs.Create.{new_job, find_key, find_existing}
use erdai_agent.Jobs.Manage.{transition_row, goal_row}
use erdai_agent.Jobs.Worker.{
  with_status, held_by, leased_row, running_row, heartbeat_row, heartbeat,
}
use erdai_agent.Jobs.Finish.{outcome, finished_row}
use erdai_agent.Jobs.Reconcile.{DueJob, due_row, due_jobs, reconcile_one, reconcile_each, reconcile}
use erdai_agent.Jobs.Effects.{
  transition_job-jobs, update_goal-store, store_goal-jobs, create_job-in, create_in-jobs,
  claim_job-jobs, claim_job-none, set_running-jobs, finish_job-jobs, new_job-key,
}
use erdai_agent.Jobs.Steps.{
  Step, creates, transitions, revises, claims, starts, beats, finishes, reconciles, Reach, start,
  next,
}

pub record Key : Type 0 where
  pub id : String
  pub owner : String
  pub workspace : String
  pub idempotency : String

abbrev pub key_of : Job → Key
key_of j = record {
  id = j.id;
  owner = j.owner_id;
  workspace = j.workspace_id;
  idempotency = j.idempotency_key;
}

-- the two constraints of the schema, for a row and a later one
pub record Apart (a b : Key) : Type 0 where
  pub ids : str_eq a.id b.id ≡ false
  pub keys :
      (str_eq a.owner b.owner
        && str_eq a.workspace b.workspace
        && str_eq a.idempotency b.idempotency
        && not (str_eq b.idempotency ""))
      ≡ false

abbrev pub Distinct : List Key → Type 0
Distinct [] = Unit {0}
Distinct (k ∷ ks) = All (Apart k) ks × Distinct ks

pub map-update_where :
    (test : Job → Bool) (f : Job → Job)
    → ((j : Job) → key_of (f j) ≡ key_of j)
    → (js : List Job) → map key_of (update_where test f js) ≡ map key_of js
unfolding update_where
map-update_where test f h [] = refl
map-update_where test f h (j ∷ js) = elim (Bool-cases (test j)) [
  | inl e ↦ ground (arith, h j, map-update_where test f h js)
  | inr e ↦ ground (arith, map-update_where test f h js)
]

reconcile_each-keys :
    (e : Env) (ds : List DueJob) (s : Store)
    → map key_of (reconcile_each e ds s).jobs ≡ map key_of s.jobs
unfolding reconcile_each reconcile_one due_row
reconcile_each-keys e [] s = refl
reconcile_each-keys e (d ∷ ds) s =
    reconcile_each-keys e ds (reconcile_one e d s)
    ∙ map-update_where (with_status d.id d.status) (due_row e d.status) (λ j. refl) s.jobs

All-Apart :
    (k : Job) (js : List Job)
    → find_job k.id js ≡ none
    → find_existing k.owner_id k.workspace_id k.idempotency_key js ≡ none
    → All (λ a. Apart a (key_of k)) (map key_of js)
unfolding find_job find_existing find_key
All-Apart k [] h p = tt
All-Apart k (j ∷ js) h p = (ground arith, All-Apart k js (ground arith) (ground arith))

Distinct-snoc :
    (ks : List Key) (k : Key) → Distinct ks → All (λ a. Apart a k) ks → Distinct (ks ++ k ∷ [])
Distinct-snoc [] k d h = (tt, tt)
Distinct-snoc (a ∷ ks) k d h = (All-snoc ks d.0 h.0, Distinct-snoc ks k d.1 h.1)
  where
    All-snoc : (xs : List Key) → All (Apart a) xs → Apart a k → All (Apart a) (xs ++ k ∷ [])
    All-snoc [] g p = (p, tt)
    All-snoc (x ∷ xs) g p = (g.0, All-snoc xs g.1 p)

map-snoc : (js : List Job) (k : Job) → map key_of (js ++ k ∷ []) ≡ map key_of js ++ key_of k ∷ []
map-snoc [] k = refl
map-snoc (j ∷ js) k = ap (◌∷◌ (key_of j)) (map-snoc js k)

-- An update by a function that keeps the keys keeps the constraints.
updated :
    (test : Job → Bool) (f : Job → Job)
    → ((j : Job) → key_of (f j) ≡ key_of j)
    → (js : List Job) {js' : List Job} → js' ≡ update_where test f js
    → Distinct (map key_of js)
    → Distinct (map key_of js')
updated test f h js q v = subst Distinct (sym (ap (map key_of) q ∙ map-update_where test f h js)) v

Step-Distinct :
    {s t : Store} → Step s t → Distinct (map key_of s.jobs) → Distinct (map key_of t.jobs)
unfolding transition_row goal_row leased_row running_row heartbeat_row heartbeat finished_row
    reconcile
Step-Distinct {s} {t} (creates e input k b h) v =
    let (d, id, cipher, _, _, h') = create_job-in e s input h in
    let j = new_job e input d id cipher in
    let (i, o, w, y) = new_job-key e input d id cipher in
    elim (create_in-jobs e s input d id cipher h') [
      | inl same ↦ subst (λ u. Distinct (map key_of u.jobs)) (sym same.0) v
      | inr (p, q, r, _, _) ↦ subst Distinct (sym (ap (map key_of) r ∙ map-snoc s.jobs j)) (
          Distinct-snoc (map key_of s.jobs) (key_of j) v
            (All-Apart j s.jobs (ground arith) (ground arith)))
    ]
Step-Distinct {s} {t} (transitions e id action actor k h) v =
    let (a, q) = transition_job-jobs e s id action actor h in
    updated (has_id id) (transition_row e a) (λ j. refl) s.jobs q v
Step-Distinct {s} {t} (revises e id goal actor k h) v =
    let (goal', cipher, h') = update_goal-store e s id goal actor h in
    let (_, _, _, q) = store_goal-jobs e s id goal' cipher actor h' in
    updated (has_id id) (goal_row e goal' cipher) (λ j. refl) s.jobs q v
Step-Distinct {s} {t} (claims e w none h) v =
    subst (λ u. Distinct (map key_of u.jobs)) (sym (claim_job-none e s w h)) v
Step-Distinct {s} {t} (claims e w (some k) h) v =
    let (j, _, _, q, _) = claim_job-jobs e s w h in
    updated (with_status j.id queued) (leased_row e w) (λ j. refl) s.jobs q v
Step-Distinct {s} {t} (starts e id w h) v =
    updated (held_by id leased w) (running_row e) (λ j. refl) s.jobs (set_running-jobs e s id w h) v
Step-Distinct {s} {t} (beats e id w h) v =
    updated (held_by id running w) (heartbeat_row e) (λ j. refl) s.jobs (ap (λ u. u.jobs) h) v
Step-Distinct {s} {t} (finishes e job w reply x h) v =
    updated (held_by job.id running w) (finished_row e job (outcome e job x)) (λ j. refl) s.jobs
      (finish_job-jobs e s job w reply x h).0 v
Step-Distinct {s} {t} (reconciles e h) v =
    subst Distinct
      (sym (ap (λ u. map key_of u.jobs) h ∙ reconcile_each-keys e (due_jobs e.now s.jobs) s)) v

-- In every history no two jobs share an identifier, and no two share the owner, the workspace and
-- an idempotency key that is not empty.
pub Reach-Distinct : {s : Store} → Reach s → Distinct (map key_of s.jobs)
Reach-Distinct start = tt
Reach-Distinct (next r st) = Step-Distinct st (Reach-Distinct r)

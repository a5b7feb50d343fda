-- ===== src/Jobs/Steps.antt =====
-- The histories of the table of durable jobs: every operation of go/durable_jobs.go is a step, at
-- any time, by any worker and in any order.
use erdai_agent.Prelude.{
  Bool, false, String, Option, none, some, ◌≡◌, List, [], ◌∷◌, ◌++◌, All, inl, inr, subst, sym,
}
use erdai_agent.Core.{Env, ok}
use erdai_agent.Jobs.Status.{queued, leased, running}
use erdai_agent.Jobs.Store.{Job, Store, has_id}
use erdai_agent.Jobs.Create.{CreatePayload, create_job}
use erdai_agent.Jobs.Manage.{transition_row, transition_job, goal_row, update_goal}
use erdai_agent.Jobs.Worker.{
  with_status, held_by, leased_row, claim_job, running_row, set_running, heartbeat_row, heartbeat,
}
use erdai_agent.Jobs.Finish.{RunError, outcome, finished_row, finish_job}
use erdai_agent.Jobs.Reconcile.{DueJob, due_row, due_jobs, reconcile_one, reconcile_each, reconcile}
use erdai_agent.Jobs.Rows.{All-update_where, All-of, sole}
use erdai_agent.Jobs.Gate.{
  RowInv, transition_row-RowInv, goal_row-RowInv, leased_row-RowInv, running_row-RowInv,
  heartbeat_row-RowInv, finished_row-RowInv, due_row-RowInv, new_job-RowInv,
  check_max_attempts_bounds,
}
use erdai_agent.Jobs.Effects.{
  transition_job-jobs, update_goal-store, store_goal-jobs, create_job-in, create_in-jobs,
  normalize_payload-max, claim_job-jobs, claim_job-none, set_running-jobs, finish_job-jobs,
}
use erdai_agent.Jobs.Claim.{pick-claimable, claimable-queued, All-map}

pub data Step (s t : Store) : Type 0 where
  creates :
      (e : Env) (input : CreatePayload) (k : Job) (b : Bool)
      → create_job e s input ≡ ok (t, k, b)
      → Step s t
  transitions :
      (e : Env) (id action actor : String) (k : Job)
      → transition_job e s id action actor ≡ ok (t, k)
      → Step s t
  revises :
      (e : Env) (id goal actor : String) (k : Job)
      → update_goal e s id goal actor ≡ ok (t, k)
      → Step s t
  claims : (e : Env) (w : String) (k : Option Job) → claim_job e s w ≡ ok (t, k) → Step s t
  starts : (e : Env) (id w : String) → set_running e s id w ≡ ok t → Step s t
  beats : (e : Env) (id w : String) → t ≡ heartbeat e s id w → Step s t
  finishes :
      (e : Env) (job : Job) (w reply : String) (x : Option RunError)
      → finish_job e s job w reply x ≡ ok t
      → Step s t
  reconciles : (e : Env) → t ≡ reconcile e s → Step s t

abbrev pub empty_store : Store
empty_store = record { jobs = []; events = []; results = [] }

pub data Reach : Store → Type 0 where
  start : Reach empty_store
  next : {s t : Store} → Reach s → Step s t → Reach t

All-append {ℓ} :
    (P : Job → Type ℓ) (js : List Job) {j : Job} → All P js → P j → All P (js ++ j ∷ [])
All-append P [] h p = (p, tt)
All-append P (k ∷ js) h p = (h.0, All-append P js h.1 p)

reconcile_each-RowInv :
    (e : Env) (ds : List DueJob) (s : Store)
    → All RowInv s.jobs
    → All RowInv (reconcile_each e ds s).jobs
unfolding reconcile_each reconcile_one
reconcile_each-RowInv e [] s h = h
reconcile_each-RowInv e (d ∷ ds) s h = reconcile_each-RowInv e ds (reconcile_one e d s) (
    All-update_where (with_status d.id d.status) RowInv (due_row e d.status) s.jobs h
      (All-of (with_status d.id d.status) _ s.jobs (λ j _. due_row-RowInv e d.status j)))

Step-RowInv : {s t : Store} → Step s t → All RowInv s.jobs → All RowInv t.jobs
Step-RowInv {s} {t} (creates e input k b h) v =
    let (d, id, cipher, p, _, h') = create_job-in e s input h in
    let (lo, hi) = check_max_attempts_bounds input.max_attempts (normalize_payload-max e input p) in
    elim (create_in-jobs e s input d id cipher h') [
      | inl same ↦ subst (λ u. All RowInv u.jobs) (sym same.0) v
      | inr fresh ↦
          subst (All RowInv) (sym fresh.2)
            (All-append RowInv s.jobs v (new_job-RowInv e input d id cipher lo hi))
    ]
Step-RowInv {s} {t} (transitions e id action actor k h) v =
    let (a, q) = transition_job-jobs e s id action actor h in
    subst (All RowInv) (sym q) (
      All-update_where (has_id id) RowInv (transition_row e a) s.jobs v
        (All-of (has_id id) _ s.jobs (λ j _. transition_row-RowInv e a j)))
Step-RowInv {s} {t} (revises e id goal actor k h) v =
    let (goal', cipher, h') = update_goal-store e s id goal actor h in
    let (_, _, _, q) = store_goal-jobs e s id goal' cipher actor h' in
    subst (All RowInv) (sym q) (
      All-update_where (has_id id) RowInv (goal_row e goal' cipher) s.jobs v
        (All-of (has_id id) _ s.jobs (λ j _. goal_row-RowInv e goal' cipher j)))
Step-RowInv {s} {t} (claims e w none h) v =
    subst (λ u. All RowInv u.jobs) (sym (claim_job-none e s w h)) v
Step-RowInv {s} {t} (claims e w (some k) h) v =
    let (j, p, c, q, _) = claim_job-jobs e s w h in
    let (m, y) = pick-claimable e.now s.jobs p in
    let (t', g) = claimable-queued e.now j y in
    let test = with_status j.id queued in
    subst (All RowInv) (sym q) (
      All-update_where test RowInv (leased_row e w) s.jobs v (
        All-map _ _ (λ i g' e'. leased_row-RowInv e w i (g' e')) s.jobs
          (sole test (λ i. i.requires_approval ≡ false) j s.jobs m t' c g)))
Step-RowInv {s} {t} (starts e id w h) v = subst (All RowInv) (sym (set_running-jobs e s id w h)) (
    All-update_where (held_by id leased w) RowInv (running_row e) s.jobs v
      (All-of (held_by id leased w) _ s.jobs (running_row-RowInv e id w)))
Step-RowInv {s} {t} (beats e id w h) v =
    subst (λ u. All RowInv u.jobs) (sym h)
      (unfold heartbeat in
        All-update_where (held_by id running w) RowInv (heartbeat_row e) s.jobs v
          (All-of (held_by id running w) _ s.jobs (heartbeat_row-RowInv e id w)))
Step-RowInv {s} {t} (finishes e job w reply x h) v =
    subst (All RowInv) (sym (finish_job-jobs e s job w reply x h).0) (
      All-update_where (held_by job.id running w) RowInv (finished_row e job (outcome e job x))
        s.jobs v
        (All-of (held_by job.id running w) _ s.jobs (λ j _. finished_row-RowInv e job x j)))
Step-RowInv {s} {t} (reconciles e h) v =
    subst (λ u. All RowInv u.jobs) (sym h)
      (unfold reconcile in reconcile_each-RowInv e (due_jobs e.now s.jobs) s v)

-- In every history of create, transition, goal update, claim, start, heartbeat, finish and
-- reconcile, by any workers, every job that a worker holds is free of the approval gate, has an
-- owner, an expiry and at least one attempt; a job that waits for approval has the gate set; a job
-- that nobody holds has no lease; a job that ended has the time of its end; and the budget of
-- attempts is from 1 to 100.
pub Reach-RowInv : {s : Store} → Reach s → All RowInv s.jobs
Reach-RowInv start = tt
Reach-RowInv (next r st) = Step-RowInv st (Reach-RowInv r)

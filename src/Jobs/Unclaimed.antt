-- ===== src/Jobs/Unclaimed.antt =====
-- A worker that finished a round of go/durable_jobs.go has lost the job until someone claims it again,
-- whatever happens to the table in between.
use mathlib.Core.List.{Memᴰ}
use erdai_agent.Prelude.{
  Bool, true, false, String, Option, none, some, str_eq, eq_iff, List, [], ◌∷◌, ◌++◌, All, map, ◌≡◌,
  ◌≢◌, refl, arith, inl, inr, Bool-cases, sym, subst, ◌∙◌,
}
use erdai_agent.Core.{Env, ok}
use erdai_agent.Jobs.Status.{queued, leased, running}
use erdai_agent.Jobs.Store.{Job, Store, update_where, count_where, has_id}
use erdai_agent.Jobs.Create.{CreatePayload, Draft, new_job}
use erdai_agent.Jobs.Manage.{Action, transition_row, goal_row}
use erdai_agent.Jobs.Worker.{
  with_status, held_by, leased_row, running_row, heartbeat_row, heartbeat,
}
use erdai_agent.Jobs.Finish.{RunError, outcome, finished_row, finish_job}
use erdai_agent.Jobs.Reconcile.{DueJob, due_row, due_jobs, reconcile_one, reconcile_each, reconcile}
use erdai_agent.Jobs.Rows.{All-update_where, All-of}
use erdai_agent.Jobs.Effects.{
  transition_job-jobs, update_goal-store, store_goal-jobs, create_job-in, create_in-jobs,
  claim_job-jobs, claim_job-none, set_running-jobs, finish_job-jobs,
}
use erdai_agent.Jobs.Steps.{
  Step, creates, transitions, revises, claims, starts, beats, finishes, reconciles,
}
use erdai_agent.Jobs.Identity.{Distinct, key_of}
use erdai_agent.Jobs.Fence.{find-id, count_none}
use erdai_agent.Jobs.Only.{Only, Only-through, Only-All, Distinct-Only, updated_row}

-- a step that does not hand out the job
abbrev pub Spares : String → {s t : Store} → Step s t → Type 0
Spares id (claims e w (some k) h) = k.id ≢ id
Spares id _ = Unit {0}

-- the histories in which nobody claims the job
pub data Unclaimed (id : String) (s : Store) : Store → Type 0 where
  stays : Unclaimed id s s
  goes : {t u : Store} → Unclaimed id s t → (st : Step t u) → Spares id st → Unclaimed id s u

-- the worker holds no row with the identifier, started or not
abbrev Free : String → String → Job → Type 0
Free id w j = (held_by id leased w j ≡ false) × (held_by id running w j ≡ false)

-- a row without an owner
unowned : (id w : String) (j : Job) → j.lease_owner ≡ none → Free id w j
unowned id w j h = rw h (ground arith, ground arith)

-- a row with another identifier
apart : (id w : String) (j : Job) → str_eq j.id id ≡ false → Free id w j
apart id w j h = (ground arith, ground arith)

new_job-Free :
    (e : Env) (input : CreatePayload) (d : Draft) (new cipher id w : String)
    → Free id w (new_job e input d new cipher)
unfolding new_job
new_job-Free e input d new cipher id w = unowned id w (new_job e input d new cipher) refl

transition_row-Free :
    (e : Env) (a : Action) (id w : String) (j : Job) → Free id w (transition_row e a j)
unfolding transition_row
transition_row-Free e a id w j = unowned id w (transition_row e a j) refl

goal_row-Free :
    (e : Env) (goal cipher id w : String) (j : Job) → Free id w (goal_row e goal cipher j)
unfolding goal_row
goal_row-Free e goal cipher id w j = unowned id w (goal_row e goal cipher j) refl

finished_row-Free :
    (e : Env) (job : Job) (x : Option RunError) (id w : String) (j : Job)
    → Free id w (finished_row e job (outcome e job x) j)
unfolding finished_row
finished_row-Free e job x id w j = unowned id w (finished_row e job (outcome e job x) j) refl

due_row-Free : (e : Env) (d : DueJob) (id w : String) (j : Job) → Free id w (due_row e d.status j)
unfolding due_row
due_row-Free e d id w j = unowned id w (due_row e d.status j) refl

leased_row-Free :
    (e : Env) (v id w other : String) (j : Job)
    → other ≢ id
    → with_status other queued j ≡ true
    → Free id w (leased_row e v j)
unfolding leased_row
leased_row-Free e v id w other j n y =
    let o : j.id ≡ other = (eq_iff j.id other).0 (ground arith) in
    elim (Bool-cases (str_eq j.id id)) [
      | inl z ↦ absurd (n (sym o ∙ (eq_iff j.id id).0 z))
      | inr z ↦ apart id w (leased_row e v j) z
    ]

running_row-Free :
    (e : Env) (v id w other : String) (j : Job)
    → held_by other leased v j ≡ true
    → Free id w j
    → Free id w (running_row e j)
unfolding running_row
running_row-Free e v id w other j y h = (ground arith, ground arith)

heartbeat_row-Free :
    (e : Env) (v id w other : String) (j : Job)
    → held_by other running v j ≡ true
    → Free id w j
    → Free id w (heartbeat_row e j)
unfolding heartbeat_row
heartbeat_row-Free e v id w other j y h = (ground arith, ground arith)

All-end : (P : Job → Type 0) (js : List Job) {j : Job} → All P js → P j → All P (js ++ j ∷ [])
All-end P [] h p = (p, tt)
All-end P (k ∷ js) h p = (h.0, All-end P js h.1 p)

module _ (id w : String) where
  -- an UPDATE whose rows nobody owns
  frees :
      (test : Job → Bool) (f : Job → Job) (js ks : List Job)
      → ((j : Job) → Free id w (f j))
      → ks ≡ update_where test f js
      → All (Free id w) js
      → All (Free id w) ks
  frees test f js ks g q v =
      subst (All (Free id w)) (sym q)
        (All-update_where test (Free id w) f js v (All-of test _ js (λ j _ _. g j)))

  reconcile_each-Free :
      (e : Env) (ds : List DueJob) (s : Store)
      → All (Free id w) s.jobs
      → All (Free id w) (reconcile_each e ds s).jobs
  unfolding reconcile_each reconcile_one
  reconcile_each-Free e [] s v = v
  reconcile_each-Free e (d ∷ ds) s v = reconcile_each-Free e ds (reconcile_one e d s) (
      frees (with_status d.id d.status) (due_row e d.status) s.jobs _ (due_row-Free e d id w) refl
        v)

  Step-Free :
      {s t : Store} (st : Step s t) → Spares id st → All (Free id w) s.jobs → All (Free id w) t.jobs
  Step-Free {s} {t} (creates e input k b h) u v =
      let (d, new, cipher, _, _, h') = create_job-in e s input h in
      elim (create_in-jobs e s input d new cipher h') [
        | inl same ↦ subst (λ x. All (Free id w) x.jobs) (sym same.0) v
        | inr (_, _, q, _, _) ↦
            subst (All (Free id w)) (sym q)
              (All-end (Free id w) s.jobs v (new_job-Free e input d new cipher id w))
      ]
  Step-Free {s} {t} (transitions e key action actor k h) u v =
      let (a, q) = transition_job-jobs e s key action actor h in
      frees (has_id key) (transition_row e a) s.jobs t.jobs (transition_row-Free e a id w) q v
  Step-Free {s} {t} (revises e key goal actor k h) u v =
      let (goal', cipher, h') = update_goal-store e s key goal actor h in
      let (_, _, _, q) = store_goal-jobs e s key goal' cipher actor h' in
      frees (has_id key) (goal_row e goal' cipher) s.jobs t.jobs (goal_row-Free e goal' cipher id w)
        q v
  Step-Free {s} {t} (claims e x none h) u v =
      subst (λ x. All (Free id w) x.jobs) (sym (claim_job-none e s x h)) v
  Step-Free {s} {t} (claims e x (some k) h) u v =
      let (j, _, _, q, f) = claim_job-jobs e s x h in
      let n : j.id ≢ id = λ z. u (find-id j.id t.jobs f ∙ z) in
      let test = with_status j.id queued in
      subst (All (Free id w)) (sym q) (
        All-update_where test (Free id w) (leased_row e x) s.jobs v
          (All-of test _ s.jobs (λ i y _. leased_row-Free e x id w j.id i n y)))
  Step-Free {s} {t} (starts e key x h) u v =
      let test = held_by key leased x in
      subst (All (Free id w)) (sym (set_running-jobs e s key x h)) (
        All-update_where test (Free id w) (running_row e) s.jobs v
          (All-of test _ s.jobs (λ i y. running_row-Free e x id w key i y)))
  Step-Free {s} {t} (beats e key x h) u v =
      let test = held_by key running x in
      subst (λ y. All (Free id w) y.jobs) (sym h)
        (unfold heartbeat in
          All-update_where test (Free id w) (heartbeat_row e) s.jobs v
            (All-of test _ s.jobs (λ i y. heartbeat_row-Free e x id w key i y)))
  Step-Free {s} {t} (finishes e job x reply o h) u v =
      frees (held_by job.id running x) (finished_row e job (outcome e job o)) s.jobs t.jobs
        (finished_row-Free e job o id w) (finish_job-jobs e s job x reply o h).0 v
  Step-Free {s} {t} (reconciles e h) u v =
      subst (λ y. All (Free id w) y.jobs) (sym h)
        (unfold reconcile in reconcile_each-Free e (due_jobs e.now s.jobs) s v)

  Unclaimed-Free :
      {s t : Store} → Unclaimed id s t → All (Free id w) s.jobs → All (Free id w) t.jobs
  Unclaimed-Free stays v = v
  Unclaimed-Free (goes r st sp) v = Step-Free st sp (Unclaimed-Free r v)

-- a row that a count found
count-row :
    (test : Job → Bool) (js : List Job)
    → count_where test js ≡ 1
    → (j : Job) × Memᴰ j js × (test j ≡ true)
unfolding count_where
count-row test [] h = absurd (ground arith)
count-row test (k ∷ js) h = elim (Bool-cases (test k)) [
  | inl y ↦ (k, Memᴰ.head refl, y)
  | inr n ↦ let (j, m, y) = count-row test js (ground arith) in (j, Memᴰ.tail m, y)
]

finish-Free :
    (e : Env) (s : Store) (job : Job) (w reply : String) (x : Option RunError) {t : Store}
    → Distinct (map key_of s.jobs)
    → finish_job e s job w reply x ≡ ok t
    → All (Free job.id w) t.jobs
unfolding finished_row
finish-Free e s job w reply x {t} d h =
    let test = held_by job.id running w in
    let f = finished_row e job (outcome e job x) in
    let (q, c) = finish_job-jobs e s job w reply x h in
    let (j, m, y) = count-row test s.jobs c in
    let i : j.id ≡ job.id = (eq_iff j.id job.id).0 (ground arith) in
    let only = subst (λ key. Only key j s.jobs) i (Distinct-Only j s.jobs m d) in
    let only' = Only-through job.id test f j (λ k. refl) s.jobs only in
    let free : Free job.id w (updated_row test f j) = rw y (finished_row-Free e job x job.id w j) in
    subst (All (Free job.id w)) (sym q)
      (Only-All (Free job.id w) job.id _ _ only' free (λ k n. apart job.id w k n))

-- A worker settles a round once: after a finish that succeeded, no finish of the job by the same
-- worker succeeds, whatever its reply, its error, its time and its copy of the job, at the end of any
-- history of operations by anyone in which no claim hands the job out again. The keys of the table
-- have to be distinct.
pub finish_once :
    (e e' : Env) (s : Store) (job job' : Job) (w reply reply' : String) (x x' : Option RunError)
    {t u : Store}
    → Distinct (map key_of s.jobs)
    → finish_job e s job w reply x ≡ ok t
    → Unclaimed job.id t u
    → job'.id ≡ job.id
    → (v : Store) → finish_job e' u job' w reply' x' ≢ ok v
finish_once e e' s job job' w reply reply' x x' {t} {u} d h r i v h' =
    let free = Unclaimed-Free job.id w r (finish-Free e s job w reply x d h) in
    let (_, c) = finish_job-jobs e' u job' w reply' x' h' in
    let none_held = runs u.jobs free in
    let c' = subst (λ key. count_where (held_by key running w) u.jobs ≡ 1) i c in
    let z = count_none (held_by job.id running w) u.jobs none_held in absurd (omega arith)
  where
    runs :
        (js : List Job) → All (Free job.id w) js → All (λ j. held_by job.id running w j ≡ false) js
    runs [] f = tt
    runs (k ∷ js) f = (f.0.1, runs js f.1)

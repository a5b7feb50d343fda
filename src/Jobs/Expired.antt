-- ===== src/Jobs/Expired.antt =====
-- An expired lease in go/durable_jobs.go: the reconciler takes the job from its worker, and leaves it for
-- a decision by hand.
use erdai_agent.Prelude.{
  ℕ, true, false, String, Option, some, ◌≡◌, ◌≢◌, refl, arith, List, [], ◌∷◌, All, inl, inr, ◌⊎◌,
  Bool-cases, subst, sym, ap, ◌∙◌, map, eq_iff,
}
use erdai_agent.Core.{Env, ok}
use erdai_agent.Jobs.Status.{running, unknown_manual, is}
use erdai_agent.Jobs.Store.{Job, Store, find_job}
use erdai_agent.Jobs.Worker.{with_status, held_by, claimable}
use erdai_agent.Jobs.Finish.{RunError, finish_job}
use erdai_agent.Jobs.Reconcile.{
  DueJob, is_due, past, due_row, due_jobs, reconcile_one, reconcile_each, reconcile,
}
use erdai_agent.Jobs.Rows.{All-mem, find-mem}
use erdai_agent.Jobs.Effects.{finish_job-jobs}
use erdai_agent.Jobs.Settled.{reconcile-none_due}
use erdai_agent.Jobs.Fence.{count_none}
use erdai_agent.Jobs.Identity.{Distinct, key_of}
use erdai_agent.Jobs.Only.{
  Only, Only-find, Only-All, Only-Mem, Only-through, Distinct-Only, updated_row,
}

held_past-due :
    (now : ℕ) (id w : String) (j : Job)
    → held_by id running w j ≡ true
    → past j.lease_expires_at now ≡ true
    → is_due now j ≡ true
unfolding is_due
held_past-due now id w j h p = ground arith

-- a row that runs past its lease, or one that the reconciler has left for a decision by hand
abbrev Expired : ℕ → String → String → Job → Type 0
Expired now id w j =
    ((held_by id running w j ≡ true) × (is_due now j ≡ true)) ⊎ (j.status ≡ unknown_manual)

-- the SELECT finds no job that is left for a decision by hand
abbrev Selected : DueJob → Type 0
Selected d = is d.status unknown_manual ≡ false

due_jobs-Selected : (now : ℕ) (js : List Job) → All Selected (due_jobs now js)
unfolding due_jobs is_due
due_jobs-Selected now [] = tt
due_jobs-Selected now (j ∷ js) = elim (Bool-cases (is_due now j)) [
  | inl y ↦ rw y (ground arith, due_jobs-Selected now js)
  | inr n ↦ rw n (due_jobs-Selected now js)
]

Expired-due :
    (e : Env) (now : ℕ) (id w : String) (d : DueJob) (j : Job)
    → Selected d
    → Expired now id w j
    → Expired now id w (updated_row (with_status d.id d.status) (due_row e d.status) j)
unfolding due_row
Expired-due e now id w d j sel (inl h) = elim (Bool-cases (with_status d.id d.status j)) [
  | inr n ↦ rw n (inl h)
  | inl y ↦ rw y (inr (ground arith))
]
Expired-due e now id w d j sel (inr h) = elim (Bool-cases (with_status d.id d.status j)) [
  | inr n ↦ rw n (inr h)
  | inl y ↦
      let m : is unknown_manual d.status ≡ true = ap (λ v. is v d.status) (sym h) ∙ ground arith in
      absurd (ground arith)
]

Expired-each :
    (e : Env) (now : ℕ) (id w : String) (ds : List DueJob) (s : Store) (j : Job)
    → All Selected ds
    → Only id j s.jobs
    → Expired now id w j
    → (k : Job) × Only id k (reconcile_each e ds s).jobs × Expired now id w k
unfolding reconcile_each reconcile_one due_row
Expired-each e now id w [] s j sel o h = (j, o, h)
Expired-each e now id w (d ∷ ds) s j sel o h =
    Expired-each e now id w ds (reconcile_one e d s) _ sel.1
      (Only-through id (with_status d.id d.status) (due_row e d.status) j (λ k. refl) s.jobs o)
      (Expired-due e now id w d j sel.0 h)

-- Once the reconciler has passed after the lease of a running round ran out, the job stands there for
-- a decision by hand: its status is unknown, no worker can claim it and no later pass of the
-- reconciler takes it up, at any time; and no finish of that round by its worker succeeds. The
-- keys of the table have to be distinct.
pub finish_expired :
    (e e' : Env) (s : Store) (job j : Job) (w reply : String) (x : Option RunError)
    → Distinct (map key_of s.jobs)
    → find_job job.id s.jobs ≡ some j
    → held_by job.id running w j ≡ true
    → past j.lease_expires_at e.now ≡ true
    → ((k : Job) × (find_job job.id (reconcile e s).jobs ≡ some k)
        × (k.status ≡ unknown_manual)
        × ((now : ℕ) → claimable now k ≡ false)
        × ((now : ℕ) → is_due now k ≡ false))
      × ((u : Store) → finish_job e' (reconcile e s) job w reply x ≢ ok u)
unfolding claimable is_due
finish_expired e e' s job j w reply x d f held late =
    let i : j.id ≡ job.id = (eq_iff j.id job.id).0 (ground arith) in
    let only =
      subst (λ key. Only key j s.jobs) i (Distinct-Only j s.jobs (find-mem job.id s.jobs f) d) in
    let due = held_past-due e.now job.id w j held late in
    let (k, o, m) =
      Expired-each e e.now job.id w (due_jobs e.now s.jobs) s j (due_jobs-Selected e.now s.jobs)
        only (inl (held, due)) in
    let o' : Only job.id k (reconcile e s).jobs = unfold reconcile in o in
    let idle =
      All-mem (λ i. is_due e.now i ≡ false) (reconcile e s).jobs
        (Only-Mem job.id k (reconcile e s).jobs o') (reconcile-none_due e s) in
    let manual : k.status ≡ unknown_manual = elim m [
      | inl y ↦ let z = y.1 in absurd cc
      | inr y ↦ y
    ] in
    (
      (k, Only-find job.id k _ o', manual, λ now. ground arith, λ now. ground arith),
      λ u h'.
          let (_, c) = finish_job-jobs e' (reconcile e s) job w reply x h' in
          let free : held_by job.id running w k ≡ false = ground arith in
          let z = count_none (held_by job.id running w) (reconcile e s).jobs (
            Only-All (λ i. held_by job.id running w i ≡ false) job.id k _ o' free
              (λ i n. ground arith)) in
          absurd (omega arith),
    )

-- ===== src/Jobs/Settled.antt =====
-- The reconciler of go/durable_jobs.go leaves nothing due, and a second pass at the same time
-- changes nothing.
use text.Mathlib.TextPositions.{eq_refl}
use erdai_agent.Prelude.{
  ℕ, Bool, true, false, ◌||◌, ◌≡◌, refl, arith, List, [], ◌∷◌, All, inl, inr, Bool-cases, subst,
  sym, ap, ◌∙◌,
}
use erdai_agent.Core.{Env}
use erdai_agent.Jobs.Status.{Status, is}
use erdai_agent.Jobs.Store.{Job, Store, update_where}
use erdai_agent.Jobs.Worker.{with_status}
use erdai_agent.Jobs.Reconcile.{
  DueJob, is_due, due_jobs, due_row, reconcile_one, reconcile_each, reconcile,
}
use erdai_agent.Jobs.Claim.{All-map}

-- some entry of the list is for this row
abbrev listed : List DueJob → Job → Bool
listed [] j = false
listed (d ∷ ds) j = with_status d.id d.status j || listed ds j

abbrev Pending : ℕ → List DueJob → Job → Type 0
Pending now ds j = is_due now j ≡ true → listed ds j ≡ true

-- the row that a round of the loop writes is not due
due_row-not_due :
    (e : Env) (from : Status) (j : Job) (now : ℕ) → is_due now (due_row e from j) ≡ false
unfolding due_row is_due
due_row-not_due e from j now = ground arith

Pending-update :
    (e : Env) (now : ℕ) (d : DueJob) (ds : List DueJob) (js : List Job)
    → All (Pending now (d ∷ ds)) js
    → All (Pending now ds) (update_where (with_status d.id d.status) (due_row e d.status) js)
unfolding update_where
Pending-update e now d ds [] h = tt
Pending-update e now d ds (j ∷ js) h = (
  elim (Bool-cases (with_status d.id d.status j)) [
    | inl y ↦ rw y (λ due. let no = due_row-not_due e d.status j now in cc)
    | inr n ↦ rw n (λ due. let l = h.0 due in let l' = rw n at l in l')
  ],
  Pending-update e now d ds js h.1,
)

unlisted_row : (now : ℕ) (j : Job) → Pending now [] j → is_due now j ≡ false
unlisted_row now j p = elim (Bool-cases (is_due now j)) [ inl y ↦ let l = p y in cc | inr n ↦ n ]

reconcile_each-none_due :
    (e : Env) (now : ℕ) (ds : List DueJob) (s : Store)
    → All (Pending now ds) s.jobs
    → All (λ j. is_due now j ≡ false) (reconcile_each e ds s).jobs
unfolding reconcile_each reconcile_one
reconcile_each-none_due e now [] s h =
    All-map (Pending now []) (λ j. is_due now j ≡ false) (unlisted_row now) s.jobs h
reconcile_each-none_due e now (d ∷ ds) s h =
    reconcile_each-none_due e now ds (reconcile_one e d s) (Pending-update e now d ds s.jobs h)

is_refl : (s : Status) → is s s ≡ true
is_refl s = ground arith

with_status_self : (j : Job) → with_status j.id j.status j ≡ true
with_status_self j = rw (eq_refl j.id, is_refl j.status)

weaken_listed :
    (d : DueJob) (ds : List DueJob) (j : Job) → listed ds j ≡ true → listed (d ∷ ds) j ≡ true
weaken_listed d ds j h = ground arith

due_jobs-listed : (now : ℕ) (js : List Job) → All (Pending now (due_jobs now js)) js
unfolding due_jobs
due_jobs-listed now [] = tt
due_jobs-listed now (j ∷ js) = elim (Bool-cases (is_due now j)) [
  | inr n ↦
      let q : due_jobs now (j ∷ js) ≡ due_jobs now js = rw n in
      subst (λ ds. All (Pending now ds) (j ∷ js)) (sym q) ((λ y. cc), due_jobs-listed now js)
  | inl y ↦
      let d : DueJob = record { id = j.id; status = j.status } in
      let q : due_jobs now (j ∷ js) ≡ d ∷ due_jobs now js = rw y in
      subst (λ ds. All (Pending now ds) (j ∷ js)) (sym q)
        (
          (λ _. rw (with_status_self j) refl),
          All-map (Pending now (due_jobs now js)) (Pending now (d ∷ due_jobs now js))
              (λ k p due. weaken_listed d (due_jobs now js) k (p due)) js (due_jobs-listed now js),
        )
]

due_jobs-none :
    (now : ℕ) (js : List Job) → All (λ j. is_due now j ≡ false) js → due_jobs now js ≡ []
unfolding due_jobs
due_jobs-none now [] h = refl
due_jobs-none now (j ∷ js) h = ground (arith, due_jobs-none now js h.1)

reconcile_lem : (e : Env) (s : Store) → reconcile e s ≡ reconcile_each e (due_jobs e.now s.jobs) s
unfolding reconcile
reconcile_lem e s = refl

-- After a pass of the reconciler no job is due at the time of the pass: every planned job whose
-- time came, every retry whose time came and every expired lease has been settled.
pub reconcile-none_due :
    (e : Env) (s : Store) → All (λ j. is_due e.now j ≡ false) (reconcile e s).jobs
unfolding reconcile
reconcile-none_due e s =
    reconcile_each-none_due e e.now (due_jobs e.now s.jobs) s (due_jobs-listed e.now s.jobs)

-- A second pass at the same time changes nothing.
reconcile-reconcile : (e : Env) (s : Store) → reconcile e (reconcile e s) ≡ reconcile e s
unfolding reconcile_each
reconcile-reconcile e s =
    let none = due_jobs-none e.now (reconcile e s).jobs (reconcile-none_due e s) in
    reconcile_lem e (reconcile e s) ∙ ap (λ ds. reconcile_each e ds (reconcile e s)) none

-- ===== src/Jobs/Recurring.antt =====
-- The retry budget of a job with a recurring plan, in histories of the operations of
-- go/durable_jobs.go.
use text.Mathlib.TextPositions.{eq_refl}
use erdai_agent.Prelude.{
  ℕ, suc, ◌+◌, ◌≤◌, leb, true, String, none, some, str_eq, List, [], ◌∷◌, ◌≡◌, refl, arith, inl,
  inr, Bool-cases, subst, sym, ap, ◌∙◌, map,
}
use erdai_agent.Core.{Env, ok}
use erdai_agent.Jobs.Status.{queued, leased, running, dead_letter}
use erdai_agent.Jobs.Store.{Job, Store, find_job, update_where}
use erdai_agent.Jobs.Goal.{next_run}
use erdai_agent.Jobs.Worker.{with_status, held_by, leased_row, claim_job, running_row, set_running}
use erdai_agent.Jobs.Finish.{plain, next_stamp, outcome, finished_row, finish_job}
use erdai_agent.Jobs.Reconcile.{DueJob, due_row, due_jobs, reconcile_one, reconcile_each, reconcile}
use erdai_agent.Jobs.Rows.{find-mem}
use erdai_agent.Jobs.Effects.{claim_job-jobs, set_running-jobs, finish_job-jobs}
use erdai_agent.Jobs.Claim.{pick-claimable, claimable-queued}
use erdai_agent.Jobs.Identity.{Distinct, key_of}
use erdai_agent.Jobs.Fence.{find-id}
use erdai_agent.Jobs.Only.{Only, Only-find, Only-mem, Only-through, Distinct-Only, updated_row}

-- a successful round of a job whose plan has a next time: claimed, started and finished
pub data SuccessfulRound (id w : String) (s : Store) : Store → Type 0 where
  succeeds :
      {s₁ s₂ s₃ : Store} {k : Job} (e e' : Env) (reply : String) (t : ℕ)
      → claim_job e s w ≡ ok (s₁, some k)
      → k.id ≡ id
      → set_running e s₁ id w ≡ ok s₂
      → next_run e' k.plan e'.now ≡ some t
      → finish_job e' s₂ (record k { status = running }) w reply none ≡ ok s₃
      → SuccessfulRound id w s s₃

-- so many of them, and passes of the reconciler between them
pub data SuccessfulRounds (id w : String) (s : Store) : ℕ → Store → Type 0 where
  begins : SuccessfulRounds id w s 0 s
  reconciles :
      {n : ℕ} {t : Store} (e : Env)
      → SuccessfulRounds id w s n t
      → SuccessfulRounds id w s n (reconcile e t)
  repeats :
      {n : ℕ} {t u : Store}
      → SuccessfulRounds id w s n t
      → SuccessfulRound id w t u
      → SuccessfulRounds id w s (suc n) u

-- the one row with the identifier, its attempts and its budget
abbrev Spent : String → ℕ → ℕ → Store → Type 0
Spent id n m s = (j : Job) × Only id j s.jobs × (j.attempts ≡ n) × (j.max_attempts ≡ m)

reconcile_each-Spent :
    (e : Env) (ds : List DueJob) (id : String) (n m : ℕ) (s : Store)
    → Spent id n m s
    → Spent id n m (reconcile_each e ds s)
unfolding reconcile_each reconcile_one due_row
reconcile_each-Spent e [] id n m s v = v
reconcile_each-Spent e (d ∷ ds) id n m s (j, o, a, b) =
    let test = with_status d.id d.status in
    reconcile_each-Spent e ds id n m (reconcile_one e d s) (
      updated_row test (due_row e d.status) j,
      Only-through id test (due_row e d.status) j (λ k. refl) s.jobs o,
      elim (Bool-cases (test j)) [ inl y ↦ rw y a | inr z ↦ rw z a ],
      elim (Bool-cases (test j)) [ inl y ↦ rw y b | inr z ↦ rw z b ],
    )

-- the row that a claim hands out
claimed-Spent :
    (e : Env) (id w : String) (n m : ℕ) (s : Store) {s₁ : Store} {k : Job}
    → Spent id n m s
    → claim_job e s w ≡ ok (s₁, some k)
    → k.id ≡ id
    → Only id k s₁.jobs
      × (held_by id leased w k ≡ true)
      × (k.attempts ≡ suc n)
      × (k.max_attempts ≡ m)
unfolding leased_row
claimed-Spent e id w n m s {s₁} {k} (j, o, a, b) h same_id =
    let (i, p, _, q, f) = claim_job-jobs e s w h in
    let key : i.id ≡ id = sym (find-id i.id s₁.jobs f) ∙ same_id in
    let (mem, y) = pick-claimable e.now s.jobs p in
    let (t, _) = claimable-queued e.now i y in
    let here : str_eq i.id id ≡ true = ap (λ x. str_eq x id) key ∙ eq_refl id in
    let same : i ≡ j = Only-mem id j i s.jobs o mem here in
    let test = with_status i.id queued in
    let t' : test j ≡ true = ap test (sym same) ∙ t in
    let row : updated_row test (leased_row e w) j ≡ leased_row e w j = rw t' refl in
    let o' : Only id (leased_row e w j) s₁.jobs = subst (Only id (leased_row e w j)) (sym q) (
      subst (λ x. Only id x (update_where test (leased_row e w) s.jobs)) row
        (Only-through id test (leased_row e w) j (λ x. refl) s.jobs o)) in
    let found : some k ≡ some (leased_row e w j) =
      sym f ∙ ap (λ x. find_job x s₁.jobs) key ∙ Only-find id (leased_row e w j) s₁.jobs o' in
    let leased_k : leased_row e w j ≡ k = ground arith in
    let j_id : str_eq j.id id ≡ true = ap (λ (x : Job). str_eq x.id id) (sym same) ∙ here in
    let held : held_by id leased w (leased_row e w j) ≡ true = rw (j_id, eq_refl w) refl in
    (
      subst (λ x. Only id x s₁.jobs) leased_k o',
      ap (held_by id leased w) (sym leased_k) ∙ held,
      ap (λ (x : Job). x.attempts) (sym leased_k) ∙ ap suc a,
      ap (λ (x : Job). x.max_attempts) (sym leased_k) ∙ b,
    )

-- the row that was started
started-Spent :
    (e : Env) (id w : String) (k : Job) (s₁ : Store) {s₂ : Store}
    → Only id k s₁.jobs
    → held_by id leased w k ≡ true
    → set_running e s₁ id w ≡ ok s₂
    → Only id (running_row e k) s₂.jobs
unfolding running_row
started-Spent e id w k s₁ {s₂} o held g =
    let test = held_by id leased w in
    let row : updated_row test (running_row e) k ≡ running_row e k = rw held refl in
    subst (Only id (running_row e k)) (sym (set_running-jobs e s₁ id w g)) (
      subst (λ x. Only id x (update_where test (running_row e) s₁.jobs)) row
        (Only-through id test (running_row e) k (λ x. refl) s₁.jobs o))

SuccessfulRound-Spent :
    (id w : String) (n m : ℕ) (s t : Store)
    → SuccessfulRound id w s t
    → Spent id n m s
    → Spent id (suc n) m t
unfolding running_row finished_row
SuccessfulRound-Spent id w n m s t (succeeds {s₁} {s₂} {s₃} {k} e e' reply u c i g p h) v =
    let (o, held, a, b) = claimed-Spent e id w n m s v c i in
    let o₂ = started-Spent e id w k s₁ o held g in
    let job = record k { status = running } in
    let test = held_by job.id running w in
    let f = finished_row e' job (outcome e' job none) in
    let r = running_row e k in
    let (q, _) = finish_job-jobs e' s₂ job w reply none h in
    (
      updated_row test f r,
      subst (Only id (updated_row test f r)) (sym q)
          (Only-through id test f r (λ x. refl) s₂.jobs o₂),
      elim (Bool-cases (test r)) [ inl y ↦ rw y a | inr z ↦ rw z a ],
      elim (Bool-cases (test r)) [ inl y ↦ rw y b | inr z ↦ rw z b ],
    )

rounds-Spent :
    (id w : String) (m n : ℕ) (s : Store) (l : ℕ) (t : Store)
    → SuccessfulRounds id w s l t
    → Spent id n m s
    → Spent id (n + l) m t
unfolding reconcile
rounds-Spent id w m n s l t begins v = subst (λ x. Spent id x m s) (omega arith) v
rounds-Spent id w m n s l t (reconciles {t = u} e r) v =
    reconcile_each-Spent e (due_jobs e.now u.jobs) id (n + l) m u (rounds-Spent id w m n s l u r v)
rounds-Spent id w m n s l t (repeats {n = k} {t = u} r x) v =
    let rest = SuccessfulRound-Spent id w (n + k) m u t x (rounds-Spent id w m n s k u r v) in
    subst (λ y. Spent id y m t) (omega arith) rest

-- The retry budget of a recurring job is spent by its successful rounds. After as many successful
-- rounds as the budget has attempts, less one, each claimed, started and finished with a next time of
-- the plan, with passes of the reconciler between them, the first plain failure of a claimed and
-- started round that is finished leaves the job a dead letter, with no retry. The keys of the table
-- have to be distinct.
pub recurring_dead_letter :
    (n : ℕ) (e e' : Env) (w reply message : String) (s t t₁ t₂ t₃ : Store) (j k : Job)
    → Distinct (map key_of s.jobs)
    → find_job j.id s.jobs ≡ some j
    → SuccessfulRounds j.id w s n t
    → j.max_attempts ≤ j.attempts + n + 1
    → claim_job e t w ≡ ok (t₁, some k)
    → k.id ≡ j.id
    → set_running e t₁ j.id w ≡ ok t₂
    → finish_job e' t₂ (record k { status = running }) w reply (some (plain message)) ≡ ok t₃
    → (i : Job) × (find_job j.id t₃.jobs ≡ some i)
      × (i.status ≡ dead_letter)
      × (i.next_run_at ≡ none)
unfolding running_row finished_row outcome next_stamp
recurring_dead_letter n e e' w reply message s t t₁ t₂ t₃ j k d f rounds spent c i g h =
    let id = j.id in
    let v₀ : Spent id j.attempts j.max_attempts s =
      (j, Distinct-Only j s.jobs (find-mem id s.jobs f) d, refl, refl) in
    let v = rounds-Spent id w j.max_attempts j.attempts s n t rounds v₀ in
    let (o, held, a, b) = claimed-Spent e id w (j.attempts + n) j.max_attempts t v c i in
    let o₂ = started-Spent e id w k t₁ o held g in
    let job = record k { status = running } in
    let test = held_by job.id running w in
    let last = finished_row e' job (outcome e' job (some (plain message))) in
    let r = running_row e k in
    let (q, _) = finish_job-jobs e' t₂ job w reply (some (plain message)) h in
    let y : test r ≡ true = ground (arith, eq_refl k.id) in
    let row : updated_row test last r ≡ last r = rw y refl in
    let o₃ : Only id (last r) t₃.jobs = subst (Only id (last r)) (sym q) (
      subst (λ x. Only id x (update_where test last t₂.jobs)) row
        (Only-through id test last r (λ x. refl) t₂.jobs o₂)) in
    let over : leb k.max_attempts k.attempts ≡ true = ground arith in
    (last r, Only-find id (last r) t₃.jobs o₃, rw over refl, rw over refl)

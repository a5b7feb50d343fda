-- ===== src/Jobs/Statements.antt =====
-- The statements of a round of go/durable_jobs.go succeed on a row whose identifier no other row has:
-- the claim, the start, and the finish where the cipher works.
use erdai_agent.Prelude.{◌+◌, true, String, Option, none, some, str_eq, ◌≡◌, refl, arith, ap, ◌∙◌}
use text.Mathlib.TextPositions.{eq_refl}
use erdai_agent.Core.{Env, stamp, ok, or_fail, ◌>>=◌, failed}
use erdai_agent.Jobs.Status.{queued, leased, running}
use erdai_agent.Jobs.Store.{
  Job, Store, lease_until, update_where, append_event, no_payload, attempt,
}
use erdai_agent.Jobs.Worker.{
  with_status, held_by, pick, lease_duration, leased_row, claim_job, running_row, set_running,
}
use erdai_agent.Jobs.Finish.{
  RunError, Outcome, outcome, finished_row, settle, store_reply, put_result, finish_job,
}
use erdai_agent.Jobs.Only.{Only, Only-find, Only-update, Only-count}

pub status_sub : (id : String) (k : Job) → with_status id queued k ≡ true → str_eq k.id id ≡ true
status_sub id k h = ground arith

pub leased_sub : (id w : String) (k : Job) → held_by id leased w k ≡ true → str_eq k.id id ≡ true
leased_sub id w k h = ground arith

pub running_sub : (id w : String) (k : Job) → held_by id running w k ≡ true → str_eq k.id id ≡ true
running_sub id w k h = ground arith

leased_row-id : (e : Env) (w : String) (j : Job) → str_eq (leased_row e w j).id j.id ≡ true
unfolding leased_row
leased_row-id e w j = eq_refl j.id

pub claim-Only :
    (e : Env) (s : Store) (w : String) (j : Job)
    → pick e.now s.jobs ≡ some j
    → with_status j.id queued j ≡ true
    → Only j.id j s.jobs
    → (t : Store) × (claim_job e s w ≡ ok (t, some (leased_row e w j)))
      × (t.jobs ≡ update_where (with_status j.id queued) (leased_row e w) s.jobs)
unfolding claim_job append_event
claim-Only e s w j p q h =
    let test = with_status j.id queued in
    let c = Only-count j.id test (status_sub j.id) j s.jobs q h in
    let h' =
      Only-update j.id test (status_sub j.id) (leased_row e w) j s.jobs q (leased_row-id e w j) h in
    let f = Only-find j.id (leased_row e w j) _ h' in
    (
      append_event e j.id "leased" (some queued) leased "worker claimed job" "准备执行" w
          (lease_until (stamp e (e.now + lease_duration)))
          (record s { jobs = update_where test (leased_row e w) s.jobs }),
      rw (p, c, f) refl,
      refl,
    )

pub start-Only :
    (e : Env) (s : Store) (id w : String) (j : Job)
    → held_by id leased w j ≡ true
    → Only id j s.jobs
    → (t : Store) × (set_running e s id w ≡ ok t)
      × (t.jobs ≡ update_where (held_by id leased w) (running_row e) s.jobs)
unfolding set_running append_event
start-Only e s id w j q h =
    let c = Only-count id (held_by id leased w) (leased_sub id w) j s.jobs q h in
    (
      append_event e id "started" (some leased) running "worker started execution" "正在执行" w
          no_payload
          (record s { jobs = update_where (held_by id leased w) (running_row e) s.jobs }),
      rw c refl,
      refl,
    )

-- a key is there, and the cipher works
abbrev pub Encrypts : Env → Type 0
Encrypts e = (text : String) → (cipher : String) × (e.encrypt text ≡ some cipher)

pub settle-Only :
    (e : Env) (s : Store) (job : Job) (w : String) (o : Outcome) (j : Job)
    → held_by job.id running w j ≡ true
    → Only job.id j s.jobs
    → (t : Store) × (settle e s job w o ≡ ok t)
      × (t.jobs ≡ update_where (held_by job.id running w) (finished_row e job o) s.jobs)
unfolding settle append_event
settle-Only e s job w o j q h =
    let c = Only-count job.id (held_by job.id running w) (running_sub job.id w) j s.jobs q h in
    (
      append_event e job.id "finished" (some running) o.status o.reason o.next_action w
          (attempt job.attempts)
          (record s {
            jobs = update_where (held_by job.id running w) (finished_row e job o) s.jobs;
          }),
      rw c refl,
      refl,
    )

pub finish-Only :
    (e : Env) (s : Store) (job : Job) (w reply : String) (x : Option RunError) (j : Job)
    → Encrypts e
    → held_by job.id running w j ≡ true
    → Only job.id j s.jobs
    → (t : Store) × (finish_job e s job w reply x ≡ ok t)
      × (t.jobs
          ≡ update_where (held_by job.id running w) (finished_row e job (outcome e job x)) s.jobs)
unfolding finish_job store_reply
finish-Only e s job w reply (some x) j a q h = settle-Only e s job w (outcome e job (some x)) j q h
finish-Only e s job w reply none j a q h =
    let (cipher, y) = a reply in
    let s' = record s { results = put_result e job.id job.attempts cipher s.results } in
    let (t, p, r) = settle-Only e s' job w (outcome e job none) j q h in
    let stored : store_reply e job none reply s ≡ ok s' =
      ap
        (λ o. or_fail o (failed "encryption") >>= λ c.
          ok (record s { results = put_result e job.id job.attempts c s.results }))
        y in
    (t, ap (λ m. m >>= λ s'. settle e s' job w (outcome e job none)) stored ∙ p, r)

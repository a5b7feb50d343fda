-- ===== src/Jobs/Liveness.antt =====
-- The worker of go/durable_jobs.go makes progress: an undisturbed round settles the job that it
-- claims, and a worker that keeps going leaves nothing to claim.
use erdai_agent.Prelude.{ℕ, suc, none, some, List, [], ◌∷◌, ◌++◌, ◌≡◌, sym, subst, ap, ◌∙◌, map}
use erdai_agent.Core.{Env, Result, ok, err}
use erdai_agent.Jobs.Status.{queued, leased, running}
use erdai_agent.Jobs.Store.{Job, find_job}
use erdai_agent.Jobs.Worker.{with_status, held_by, pick, leased_row, running_row}
use erdai_agent.Jobs.Identity.{Distinct, key_of}
use erdai_agent.Jobs.Claim.{pick-claimable, claimable-queued}
use erdai_agent.Jobs.WorkerLoop.{
  Tables, RunRecord, Reads, Call, worker_id, heartbeats, with_run, with_start, with_claim,
  run_record, run_one,
}
use erdai_agent.Jobs.Only.{Only, Only-find, Distinct-Only}
use erdai_agent.Jobs.Statements.{status_sub, leased_sub, claim-Only, start-Only, Encrypts}
use erdai_agent.Jobs.Moved.{
  Moved, Moved-trans, Moved-update, Running, heartbeats-Only, Settled, finish_round-Settled,
  leased_row-key, leased_row-held, running_row-key, running_row-Running,
}

-- Undisturbed: between its statements no other process writes the rows
module _ (r : Reads) (call : Call) (e : Env) (ticks : List Env) (e' : Env) (a : Encrypts e)
    (a' : Encrypts e') where
  with_run-Settled :
      (job : Job) (t : Tables) (o : Result RunRecord) (n : ℕ) (j : Job)
      → Running job.id n j
      → Only job.id j t.store.jobs
      → (k : Job) × Settled n k
        × Moved job.id j k t.store.jobs (with_run r call e ticks e' job t o).store.jobs
  with_run-Settled job t (err m) n j h only = finish_round-Settled e job none "" _ t n j a h only
  with_run-Settled job t (ok run) n j h only =
      let (k, h', m) = heartbeats-Only ticks job.id n t.store j h only in
      let (l, settled, m') =
        finish_round-Settled e' job (some run.id) (call run (r.goal job)).0
          (call run (r.goal job)).1
          (record t { store = heartbeats ticks job.id t.store; runs = t.runs ++ run ∷ [] }) n k a'
          h' m.only in
      (l, settled, Moved-trans m m')

  -- the claimed row, started, run and finished
  pub run_one-Moved :
      (t : Tables) (j : Job)
      → pick e.now t.store.jobs ≡ some j
      → Distinct (map key_of t.store.jobs)
      → (k : Job) × Settled (suc j.attempts) k
        × Moved j.id j k t.store.jobs (run_one r call e ticks e' t).store.jobs
  unfolding run_one leased_row
  run_one-Moved t j p d =
      let (mem, y) = pick-claimable e.now t.store.jobs p in
      let (q, _) = claimable-queued e.now j y in
      let only = Distinct-Only j t.store.jobs mem d in
      let (s, c, sj) = claim-Only e t.store worker_id j p q only in
      let j₁ = leased_row e worker_id j in
      let m =
        Moved-update j.id (with_status j.id queued) (status_sub j.id) (leased_row e worker_id) j
          t.store.jobs s.jobs (leased_row-key e worker_id) q only sj in
      let held = leased_row-held e worker_id j in
      let (u, g, uj) = start-Only e s j.id worker_id j₁ held m.only in
      let m₂ =
        Moved-update j.id (held_by j.id leased worker_id) (leased_sub j.id worker_id)
          (running_row e) j₁ s.jobs u.jobs (running_row-key e) held m.only uj in
      let job = record j₁ { status = running } in
      let (k, settled, m₃) =
        with_run-Settled job (record t { store = u }) (run_record e r job t.runs) (suc j.attempts)
          (running_row e j₁) (running_row-Running e j) m₂.only in
      (
        k,
        settled,
        subst (λ x. Moved j.id j k t.store.jobs x.store.jobs)
            (sym (
              ap (with_claim r call e ticks e' t) c
              ∙ ap (with_start r call e ticks e' j₁ (record t { store = s })) g))
            (Moved-trans m (Moved-trans m₂ m₃)),
      )

-- A round of the worker that nothing disturbs settles the job that it claims, whatever the run
-- answers and even if the row of the run could not be written: afterwards the job is there, held by
-- nobody, not claimable at any time before someone queues it again, and one attempt older. The keys
-- of the table have to be distinct and the cipher has to work.
pub run_one-settles :
    (r : Reads) (call : Call) (e : Env) (ticks : List Env) (e' : Env) (t : Tables) (j : Job)
    → Encrypts e
    → Encrypts e'
    → Distinct (map key_of t.store.jobs)
    → pick e.now t.store.jobs ≡ some j
    → (k : Job) × (find_job j.id (run_one r call e ticks e' t).store.jobs ≡ some k)
      × Settled (suc j.attempts) k
run_one-settles r call e ticks e' t j a a' d p =
    let (k, settled, m) = run_one-Moved r call e ticks e' a a' t j p d in
    (k, Only-find j.id k _ m.only, settled)

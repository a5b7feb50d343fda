-- ===== src/Jobs/RoundScenarios.antt =====
-- Runs of the worker of go/durable_jobs.go on concrete tables.
use erdai_agent.Prelude.{
  true, suc, false, ℕ, Option, none, some, String, ◌≡◌, refl, List, [], ◌∷◌, arith, pos, map,
}
use erdai_agent.Text.{trim_space}
use erdai_agent.Jobs.Status.{Status, retrying}
use erdai_agent.Jobs.Store.{Job, find_job, update_where, count_where, append_event}
use erdai_agent.Jobs.Worker.{
  pick, claimable, claim_job, leased_row, running_row, set_running, heartbeat, heartbeat_row,
  precedes,
}
use erdai_agent.Jobs.Finish.{
  RunError, plain, outcome, finished_row, finish_job, store_reply, settle,
}
use erdai_agent.Jobs.WorkerLoop.{
  RunRecord, Tables, Reads, Round, run_record, heartbeats, end_run, run_one, run_all,
}
use erdai_agent.Jobs.Scenarios.{env, blank, two_jobs}
use erdai_agent.Jobs.Identity.{Apart, Distinct, key_of}
use erdai_agent.Jobs.Statements.{Encrypts}
use erdai_agent.Jobs.Moved.{Settled}
use erdai_agent.Jobs.Liveness.{run_one-settles}
use erdai_agent.Jobs.Drained.{run_all-drains}

abbrev reads : Reads
reads = record { itoa = λ n. "1"; goal = λ j. j.goal_cipher; is_interrupted = λ m. false }

-- the run of one job fails
abbrev call : RunRecord → String → String × Option RunError
call run goal = ("done", some (plain "timeout"))

abbrev tables : Tables
tables = record { store = two_jobs; runs = [] }

abbrev urgent : Job
urgent = record blank { id = "b"; priority = pos 200 }

blank_beside_urgent : Apart (key_of blank) (key_of urgent)
blank_beside_urgent = record { ids = refl; keys = refl }

pub two_apart : Distinct (map key_of two_jobs.jobs)
two_apart = ((blank_beside_urgent, tt), (tt, tt))

cipher_works : (n : ℕ) → Encrypts (env n)
cipher_works n text = (text, refl)

urgent_first : pick 5 two_jobs.jobs ≡ some urgent
unfolding pick claimable precedes
urgent_first = refl

run_one-settles_example :
    (k : Job) × (find_job "b" (run_one reads call (env 5) (env 6 ∷ []) (env 7) tables).store.jobs
      ≡ some k)
    × Settled 1 k
run_one-settles_example =
    run_one-settles reads call (env 5) (env 6 ∷ []) (env 7) tables urgent (cipher_works 5)
      (cipher_works 7) two_apart urgent_first

-- the round itself: the job failed plainly and waits for its retry
status_of : Option Job → Option Status
status_of none = none
status_of (some j) = some j.status

failed_round :
    status_of (find_job "b" (run_one reads call (env 5) (env 6 ∷ []) (env 7) tables).store.jobs)
    ≡ some retrying
unfolding status_of run_one claim_job pick claimable precedes count_where update_where append_event
    leased_row find_job set_running running_row run_record heartbeats heartbeat heartbeat_row
    finish_job store_reply settle outcome finished_row trim_space end_run
failed_round = refl

abbrev two_rounds : List Round
two_rounds =
    record { claimed = env 5; ticks = []; ended = env 6 }
    ∷ record { claimed = env 5; ticks = []; ended = env 8 }
    ∷ []

run_all-drains_example :
    (pick 5 (run_all reads call two_rounds tables).store.jobs ≡ none)
    × ((j : Job)
        → find_job j.id two_jobs.jobs ≡ some j
        → claimable 5 j ≡ true
        → (k : Job) × (find_job j.id (run_all reads call two_rounds tables).store.jobs ≡ some k)
          × Settled (suc j.attempts) k)
unfolding count_where claimable
run_all-drains_example =
    run_all-drains reads call 5 two_rounds tables
      ((refl, cipher_works 5, cipher_works 6), ((refl, cipher_works 5, cipher_works 8), tt))
      two_apart (omega arith)

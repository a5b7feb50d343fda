-- ===== src/Jobs/HistoryScenarios.antt =====
-- Histories of go/durable_jobs.go on concrete tables: a settled round, an expired lease, and a plan that
-- comes again.
use erdai_agent.Prelude.{ℕ, ◌+◌, false, Option, none, some, ◌≡◌, ◌≢◌, refl, [], ◌∷◌, arith, map}
use erdai_agent.Core.{Result, ok, minute}
use erdai_agent.Text.{trim_space}
use erdai_agent.Jobs.Status.{running, unknown_manual, dead_letter}
use erdai_agent.Jobs.Store.{Job, Store, find_job, update_where, count_where, append_event}
use erdai_agent.Jobs.Goal.{next_run, plan_interval, recurring}
use erdai_agent.Jobs.Worker.{
  pick, claimable, precedes, claim_job, leased_row, set_running, running_row,
}
use erdai_agent.Jobs.Finish.{
  plain, outcome, finished_row, next_stamp, finish_job, store_reply, settle, put_result,
}
use erdai_agent.Jobs.Reconcile.{is_due, due_row, due_jobs, reconcile_one, reconcile_each, reconcile}
use erdai_agent.Jobs.Identity.{Distinct, key_of}
use erdai_agent.Jobs.Steps.{reconciles as pass}
use erdai_agent.Jobs.Unclaimed.{stays, goes, finish_once}
use erdai_agent.Jobs.Expired.{finish_expired}
use erdai_agent.Jobs.Recurring.{
  succeeds, SuccessfulRounds, begins, reconciles, repeats, recurring_dead_letter,
}
use erdai_agent.Jobs.Scenarios.{
  env, blank, held, one_running, after, after_eq, claimed, claimed_job, finished_store,
}

alone : Distinct (map key_of one_running.jobs)
alone = (tt, tt)

-- a pass of the reconciler stands between the two finishes
finish_once_example : finish_job (env 6) (reconcile (env 9) after) held "w" "again" none ≢ ok after
finish_once_example =
    finish_once (env 5) (env 6) one_running held held "w" "done" "again" none none alone after_eq
      (goes stays (pass (env 9) refl) tt) refl after

held_find : find_job "a" one_running.jobs ≡ some held
unfolding find_job
held_find = refl

finish_expired_example :
    ((k : Job) × (find_job "a" (reconcile (env 10) one_running).jobs ≡ some k)
      × (k.status ≡ unknown_manual)
      × ((now : ℕ) → claimable now k ≡ false)
      × ((now : ℕ) → is_due now k ≡ false))
    × ((u : Store)
        → finish_job (env 20) (reconcile (env 10) one_running) held "w" "late" none ≢ ok u)
finish_expired_example =
    finish_expired (env 10) (env 20) one_running held held "w" "late" none alone held_find refl refl

-- a job that comes again each minute, with two attempts
abbrev minutely : Job
minutely = record blank { max_attempts = 2; plan = recurring "minutely" }

abbrev planned_store : Store
planned_store = record { jobs = minutely ∷ []; events = []; results = [] }

abbrev first_claim : Result (Store × Option Job)
first_claim = claim_job (env 5) planned_store "w"

abbrev first_start : Result Store
first_start = set_running (env 5) (claimed first_claim) "a" "w"

abbrev first_end : Result Store
first_end =
    finish_job (env 6) (finished_store first_start)
      (record (claimed_job first_claim) { status = running }) "w" "done" none

first_claim_eq : first_claim ≡ ok (claimed first_claim, some (claimed_job first_claim))
unfolding claim_job pick claimable precedes update_where count_where append_event leased_row
    find_job
first_claim_eq = refl

first_id : (claimed_job first_claim).id ≡ "a"
unfolding claim_job pick claimable precedes update_where count_where append_event leased_row
    find_job
first_id = refl

first_start_eq : first_start ≡ ok (finished_store first_start)
unfolding claim_job pick claimable precedes update_where count_where append_event leased_row
    find_job set_running running_row
first_start_eq = refl

first_next : next_run (env 6) (claimed_job first_claim).plan 6 ≡ some (6 + minute)
unfolding claim_job pick claimable precedes update_where count_where append_event leased_row
    find_job next_run plan_interval trim_space
first_next = refl

first_end_eq : first_end ≡ ok (finished_store first_end)
unfolding claim_job pick claimable precedes update_where count_where append_event leased_row
    find_job set_running running_row finish_job store_reply settle put_result
first_end_eq = refl

-- the minute has passed, and the reconciler queues the job again
abbrev next_store : Store
next_store = reconcile (env (7 + minute)) (finished_store first_end)

one_round : SuccessfulRounds "a" "w" planned_store 1 next_store
one_round = reconciles (env (7 + minute)) (
    repeats begins (
      succeeds (env 5) (env 6) "done" (6 + minute) first_claim_eq first_id first_start_eq first_next
        first_end_eq))

abbrev last_claim : Result (Store × Option Job)
last_claim = claim_job (env (8 + minute)) next_store "w"

abbrev last_start : Result Store
last_start = set_running (env (8 + minute)) (claimed last_claim) "a" "w"

abbrev last_end : Result Store
last_end =
    finish_job (env (9 + minute)) (finished_store last_start)
      (record (claimed_job last_claim) { status = running }) "w" "" (some (plain "timeout"))

last_claim_eq : last_claim ≡ ok (claimed last_claim, some (claimed_job last_claim))
unfolding claim_job pick claimable precedes update_where count_where append_event leased_row
    find_job set_running running_row finish_job store_reply settle put_result outcome finished_row
    next_stamp next_run plan_interval trim_space reconcile reconcile_each reconcile_one due_jobs
    is_due due_row
last_claim_eq = refl

last_id : (claimed_job last_claim).id ≡ "a"
unfolding claim_job pick claimable precedes update_where count_where append_event leased_row
    find_job set_running running_row finish_job store_reply settle put_result outcome finished_row
    next_stamp next_run plan_interval trim_space reconcile reconcile_each reconcile_one due_jobs
    is_due due_row
last_id = refl

last_start_eq : last_start ≡ ok (finished_store last_start)
unfolding claim_job pick claimable precedes update_where count_where append_event leased_row
    find_job set_running running_row finish_job store_reply settle put_result outcome finished_row
    next_stamp next_run plan_interval trim_space reconcile reconcile_each reconcile_one due_jobs
    is_due due_row
last_start_eq = refl

last_end_eq : last_end ≡ ok (finished_store last_end)
unfolding claim_job pick claimable precedes update_where count_where append_event leased_row
    find_job set_running running_row finish_job store_reply settle put_result outcome finished_row
    next_stamp next_run plan_interval trim_space reconcile reconcile_each reconcile_one due_jobs
    is_due due_row
last_end_eq = refl

minutely_find : find_job "a" planned_store.jobs ≡ some minutely
unfolding find_job
minutely_find = refl

recurring_dead_letter_example :
    (i : Job) × (find_job "a" (finished_store last_end).jobs ≡ some i)
    × (i.status ≡ dead_letter)
    × (i.next_run_at ≡ none)
recurring_dead_letter_example =
    recurring_dead_letter 1 (env (8 + minute)) (env (9 + minute)) "w" "" "timeout" planned_store
      next_store (claimed last_claim) (finished_store last_start) (finished_store last_end) minutely
      (claimed_job last_claim) (tt, tt) minutely_find one_round (omega arith) last_claim_eq last_id
      last_start_eq last_end_eq

-- ===== src/Jobs/Scenarios.antt =====
-- Runs of the durable jobs of go/durable_jobs.go on concrete tables.
use erdai_agent.Prelude.{
  ℕ, Bool, true, false, Option, none, some, ◌≡◌, ◌≢◌, refl, [], ◌∷◌, pos, All, ◌≤◌, ◌<◌, ◌⊎◌, ◌+◌,
  ◌*◌, map,
}
use erdai_agent.Core.{Env, stamp, Result, ok, err, minute, normalize_core_text}
use erdai_agent.Text.{trim_space}
use erdai_agent.Jobs.Status.{queued, running, retrying, waiting_approval, dead_letter}
use erdai_agent.Jobs.Store.{Job, Store, find_job, update_where, count_where, append_event}
use erdai_agent.Jobs.Goal.{needs_approval, plan_from_goal}
use erdai_agent.Jobs.Create.{
  CreatePayload, create_job, normalize_payload, check_priority, check_max_attempts, check_next_run,
  create_in, find_key, find_existing, insert_job, new_job, initial_status,
}
use erdai_agent.Jobs.Manage.{cancel, retry, approve, check_transition, transition_row}
use erdai_agent.Jobs.Worker.{claimable, pick, claim_job, leased_row, precedes}
use erdai_agent.Jobs.Finish.{
  plain, outcome, finished_row, finish_job, store_reply, settle, put_result,
}
use erdai_agent.Jobs.Reconcile.{is_due, due_row, reconcile}
use erdai_agent.Jobs.Steps.{creates, Reach, start, next, empty_store, Reach-RowInv}
use erdai_agent.Jobs.Gate.{RowInv}
use erdai_agent.Jobs.Identity.{Distinct, key_of, Reach-Distinct}
use erdai_agent.Jobs.Log.{Legal, Reach-Legal}
use erdai_agent.Jobs.Settled.{reconcile-none_due}
use erdai_agent.Jobs.Again.{create_again}
use erdai_agent.Jobs.Rounds.{finish_plain, cancel_retry_stuck}

abbrev pub env : ℕ → Env
env t = record {
  now = t;
  format_time = λ n. "2026-11-26T00:00:00Z";
  parse_time = λ s. none;
  new_id = some "job-1";
  aead = true;
  encrypt = λ goal. some goal;
  lower = λ s. s;
}

abbrev pub blank : Job
blank = record {
  id = "a";
  owner_id = "admin";
  workspace_id = "default";
  bot_id = "legacy-default";
  source_transport = "qq";
  source_conversation_ref = "";
  source_message_id = "";
  title = "";
  goal_cipher = "";
  plan = [];
  status = queued;
  requires_approval = false;
  priority = pos 100;
  next_action = "";
  next_run_at = none;
  lease_owner = none;
  lease_expires_at = none;
  heartbeat_at = none;
  attempts = 0;
  max_attempts = 3;
  idempotency_key = "";
  last_error = "";
  created_at = stamp (env 1) 1;
  updated_at = stamp (env 1) 1;
  started_at = none;
  finished_at = none;
}

abbrev pub two_jobs : Store
two_jobs = record {
  jobs = blank ∷ record blank { id = "b"; priority = pos 200 } ∷ [];
  events = [];
  results = [];
}

abbrev pub held : Job
held = record blank {
  status = running;
  attempts = 1;
  lease_owner = some "w";
  lease_expires_at = some (stamp (env 9) 9);
}

abbrev pub one_running : Store
one_running = record { jobs = held ∷ []; events = []; results = [] }

abbrev input : CreatePayload
input = record {
  owner_id = "";
  workspace_id = "";
  bot_id = "";
  source_transport = "qq";
  source_conversation_ref = "";
  source_message_id = "";
  title = "";
  goal = "tea";
  instruction = "";
  plan = none;
  requires_approval = false;
  priority = pos 0;
  next_run_at = "";
  max_attempts = pos 0;
  idempotency_key = "k";
  start_immediately = none;
}

abbrev job_of : Result (Store × Job × Bool) → Job
job_of (ok (s, j, b)) = j
job_of (err x) = blank

abbrev store_of : Result (Store × Job × Bool) → Store
store_of (ok (s, j, b)) = s
store_of (err x) = empty_store

abbrev created : Store
created = store_of (create_job (env 5) empty_store input)

created_eq :
    create_job (env 5) empty_store input
    ≡ ok (
      store_of (create_job (env 5) empty_store input),
      job_of (create_job (env 5) empty_store input),
      false,
    )
unfolding create_job normalize_payload normalize_core_text check_priority check_max_attempts
    check_next_run create_in insert_job find_existing find_key find_job append_event new_job
    initial_status needs_approval plan_from_goal trim_space
created_eq = refl

history : Reach created
history =
    next start
      (creates (env 5) input (job_of (create_job (env 5) empty_store input)) false created_eq)

Reach-RowInv_example : All RowInv created.jobs
Reach-RowInv_example = Reach-RowInv history

Reach-Legal_example : All Legal created.events
Reach-Legal_example = Reach-Legal history

Reach-Distinct_example : Distinct (map key_of created.jobs)
Reach-Distinct_example = Reach-Distinct history

create_again_example :
    create_job (env 7) created input
    ≡ ok (created, job_of (create_job (env 5) empty_store input), true)
create_again_example =
    create_again (env 5) (env 7) empty_store input "job-1" created_eq refl refl refl
      (λ goal. (goal, refl)) refl

abbrev pub finished_store : Result Store → Store
finished_store (ok s) = s
finished_store (err x) = empty_store

abbrev pub after : Store
after = finished_store (finish_job (env 5) one_running held "w" "done" none)

pub after_eq : finish_job (env 5) one_running held "w" "done" none ≡ ok after
unfolding finish_job store_reply settle put_result count_where update_where append_event outcome
after_eq = refl

abbrev pub claimed : Result (Store × Option Job) → Store
claimed (ok (s, j)) = s
claimed (err x) = empty_store

abbrev pub claimed_job : Result (Store × Option Job) → Job
claimed_job (ok (s, some j)) = j
claimed_job _ = blank

abbrev first_claim : Result (Store × Option Job)
first_claim = claim_job (env 5) two_jobs "w"

abbrev second_claim : Result (Store × Option Job)
second_claim = claim_job (env 6) (claimed first_claim) "v"

first_eq : first_claim ≡ ok (claimed first_claim, some (claimed_job first_claim))
unfolding claim_job pick claimable precedes update_where count_where append_event leased_row
    find_job
first_eq = refl

second_eq : second_claim ≡ ok (claimed second_claim, some (claimed_job second_claim))
unfolding claim_job pick claimable precedes update_where count_where append_event leased_row
    find_job
second_eq = refl

reconcile-none_due_example : All (λ j. is_due 10 j ≡ false) (reconcile (env 10) one_running).jobs
reconcile-none_due_example = reconcile-none_due (env 10) one_running

abbrev last_try : Job
last_try = record held { attempts = 3 }

finish_plain_example :
    let j' =
      finished_row (env 5) last_try (outcome (env 5) last_try (some (plain "timeout"))) last_try in
    ((last_try.attempts < last_try.max_attempts)
      × (j'.status ≡ retrying)
      × (t : ℕ) × (j'.next_run_at ≡ some (stamp (env 5) t))
      × (5 + minute ≤ t)
      × (t ≤ 5 + 64 * minute))
    ⊎ ((last_try.max_attempts ≤ last_try.attempts)
        × (j'.status ≡ dead_letter)
        × (j'.next_run_at ≡ none))
finish_plain_example = finish_plain (env 5) last_try "timeout" last_try

abbrev waiting : Job
waiting = record blank { status = waiting_approval; requires_approval = true }

cancel_retry_stuck_example :
    let j₁ = transition_row (env 1) cancel waiting in
    let j₂ = transition_row (env 2) retry j₁ in
    let j₃ = due_row (env 3) j₂.status j₂ in
    (check_transition cancel waiting.status ≡ ok tt)
    × (check_transition retry j₁.status ≡ ok tt)
    × (is_due 3 j₂ ≡ true)
    × (j₃.status ≡ queued)
    × ((now : ℕ) → claimable now j₃ ≡ false)
    × (check_transition approve j₃.status ≢ ok tt)
cancel_retry_stuck_example = cancel_retry_stuck (env 1) (env 2) (env 3) waiting refl refl refl

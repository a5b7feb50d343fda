-- ===== src/Jobs/CommandScenarios.antt =====
-- Runs of the chat commands of go/durable_jobs.go and go/status_commands.go.
use erdai_agent.Prelude.{true, false, none, some, String, ◌≡◌, ◌⊎◌, refl, [], ◌∷◌, ◌++◌, map}
use erdai_agent.Core.{Result, ok, err, normalize_core_text}
use erdai_agent.Text.{is_space, trim_space, has_prefix, contains, trim_prefix}
use erdai_agent.Jobs.Status.{queued, waiting_approval}
use erdai_agent.Jobs.Store.{Job, Store, find_job, append_event}
use erdai_agent.Jobs.Goal.{needs_approval, plan_from_goal, job_title}
use erdai_agent.Jobs.Create.{
  create_job, normalize_payload, check_priority, check_max_attempts, check_next_run, create_in,
  find_existing, insert_job, new_job, initial_status,
}
use erdai_agent.Jobs.Identity.{Distinct, key_of}
use erdai_agent.Jobs.Command.{
  JobCommand, Caller, fields, is_slash_command, action_of, parse_job_command, command_payload,
  direct_command,
}
use erdai_agent.Jobs.Owned.{others, OwnRow, approval_of, direct_command-others, owner_approves}
use erdai_agent.Jobs.Scenarios.{env, blank, two_jobs}
use erdai_agent.Jobs.RoundScenarios.{two_apart}

parse_update :
    parse_job_command " /任务改为 job-1  写周报 "
    ≡ some (record { action = "update"; id = "job-1"; goal = "写周报" })
unfolding parse_job_command is_slash_command fields trim_prefix trim_space has_prefix contains
    action_of is_space
parse_update = refl

parse_two_ids : parse_job_command "/批准任务 a b" ≡ none
unfolding parse_job_command is_slash_command fields trim_prefix trim_space has_prefix contains
    action_of is_space
parse_two_ids = refl

abbrev member : Caller
member = record {
  sender_ref = " m1 ";
  conversation_ref = "g1";
  agent_instance_id = "";
  transport = "qq";
  message_id = "7";
  is_admin = false;
}

abbrev report : JobCommand
report = record { action = "create"; id = ""; goal = "写周报" }

abbrev store_after : Result (Store × String) → Store
store_after (ok r) = r.0
store_after (err x) = two_jobs

abbrev text_after : Result (Store × String) → String
text_after (ok r) = r.1
text_after (err x) = ""

abbrev outcome_of : Result (Store × String)
outcome_of = direct_command (env 5) two_jobs member report

report_created : outcome_of ≡ ok (store_after outcome_of, text_after outcome_of)
unfolding direct_command create_job normalize_payload normalize_core_text check_priority
    check_max_attempts check_next_run create_in insert_job find_existing find_job append_event
    new_job initial_status needs_approval plan_from_goal job_title trim_space command_payload
report_created = refl

direct_command-others_example :
    let actor = trim_space " m1 " in
    (others actor (store_after outcome_of).jobs ≡ others actor two_jobs.jobs)
    ⊎ ((true ≡ true)
        × (k : Job) × OwnRow actor k
        × (others actor (store_after outcome_of).jobs
            ≡ others actor two_jobs.jobs ++ others actor (k ∷ [])))
direct_command-others_example =
    direct_command-others (env 5) two_jobs member report refl two_apart report_created

abbrev gated : Job
gated = record blank { owner_id = "m1"; status = waiting_approval; requires_approval = true }

abbrev gated_store : Store
gated_store = record { jobs = gated ∷ []; events = []; results = [] }

gated_apart : Distinct (map key_of gated_store.jobs)
gated_apart = (tt, tt)

owner_approves_example :
    (t : Store) × (answer : String) × (direct_command (env 5) gated_store member (approval_of "a")
      ≡ ok (t, answer))
    × (k : Job) × (find_job "a" t.jobs ≡ some k)
    × (k.status ≡ queued)
    × (k.requires_approval ≡ false)
unfolding find_job trim_space
owner_approves_example =
    owner_approves (env 5) gated_store member gated refl refl refl gated_apart refl

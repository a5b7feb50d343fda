-- ===== src/Intents/Scenarios.antt =====
-- Runs of the admission of go/task_intent.go on concrete tables.
use erdai_agent.Prelude.{false, true, none, some, str_eq, ap, ◌≡◌, refl, [], ◌∷◌, All}
use erdai_agent.Core.{Stamp, Env, ok, err}
use erdai_agent.Text.{trim_space}
use erdai_agent.Intents.Store.{
  TaskIntent, IntentRun, IntentStep, OutboxRow, IntentDb, RunHead, IntentEnv, find_intent_run,
  find_intent, retired_intent, task_superseded, intent_id, ensure_task_current,
}
use erdai_agent.Intents.Admit.{
  admit_task_intent, admit_action, admit_prior, store_intent, persist_task_intent,
  decode_task_intent,
}
use erdai_agent.Intents.Prior.{find_prior, is_candidate, replied}
use erdai_agent.Intents.Changes.{
  max_revision, supersede, cancelled_delivery, is_other_run, put_intent, is_open,
}
use erdai_agent.Intents.Superseded.{admit_task_intent-supersedes}

abbrev noon : Stamp
noon = record { text = "noon"; instant = 43_200_000_000_000 }

abbrev clock : Env
clock = record {
  now = 43_200_000_000_000;
  format_time = λ t. "noon";
  parse_time = λ s. none;
  new_id = none;
  aead = true;
  encrypt = λ s. some s;
  lower = λ s. s;
}

-- the intent of the task "t", of which the first revision is a new task
abbrev drawing : TaskIntent
drawing = record {
  version = 1;
  task_id = "a";
  revision = 1;
  action = "new";
  goal = "draw a cat";
  user_request = "draw a cat";
  constraints = [];
  forbidden = [];
  source_message_id = "m1";
  referenced_message_id = "";
  previous_run_id = "";
  clarification = "";
  parsed_by = "rules";
  expires_at = "noon";
  retired = false;
}

abbrev world : IntentEnv
world = record {
  env = clock;
  julianday = λ s. some 0;
  encode = λ i. some i.goal;
  decode = λ s. some drawing;
  decrypt = λ s. some s;
}

abbrev first_run : IntentRun
first_run = record {
  id = "a";
  message_id = "m1";
  state = "running";
  error_code = none;
  task_id = "a";
  task_revision = 1;
  task_scope_key = "k";
  task_action = "new";
  created_at = "noon";
  updated_at = noon;
}

abbrev second_run : IntentRun
second_run = record first_run {
  id = "b";
  message_id = "m2";
  state = "queued";
  task_id = "";
  task_revision = 0;
  task_scope_key = "";
  task_action = "";
}

abbrev sending : OutboxRow
sending = record {
  id = "d1";
  run_id = "a";
  status = "sending";
  lease_owner = some "w";
  lease_expires_at = some "noon";
  next_attempt_at = none;
  last_error = none;
  updated_at = noon;
}

abbrev first_step : IntentStep
first_step = record {
  id = "a:intent";
  run_id = "a";
  status = "succeeded";
  output_cipher = some "draw a cat";
  error_code = "";
  updated_at = noon;
}

abbrev tables : IntentDb
tables = record {
  runs = first_run ∷ second_run ∷ [];
  intents = first_step ∷ [];
  outbox = sending ∷ [];
  parts = [];
}

abbrev head : RunHead
head = record { id = "b"; message_id = "m2"; reply_to_message_id = ""; scope_key = "k" }

abbrev corrected : TaskIntent
corrected = record drawing {
  revision = 2;
  action = "correction";
  user_request = "make it black";
  constraints = "make it black" ∷ [];
  source_message_id = "m2";
  previous_run_id = "a";
}

abbrev after : IntentDb
after = record {
  runs =
      record first_run { state = "cancelled"; error_code = some "task_revision_superseded" }
      ∷ record second_run {
        task_id = "a";
        task_revision = 2;
        task_scope_key = "k";
        task_action = "correction";
      }
      ∷ [];
  intents = first_step ∷ record first_step { id = "b:intent"; run_id = "b" } ∷ [];
  outbox =
      record sending {
        status = "cancelled";
        lease_owner = none;
        lease_expires_at = none;
        last_error = some "task_revision_superseded";
      }
      ∷ [];
  parts = [];
}

-- a correction of a task that runs
correction_eq :
    admit_task_intent world tables head "correction" "make it black" false
    ≡ ok (after, some corrected)
unfolding admit_task_intent admit_action admit_prior find_prior is_candidate replied find_intent
    max_revision supersede cancelled_delivery is_other_run store_intent persist_task_intent
    put_intent decode_task_intent
correction_eq = refl

-- a message that is no action on a task
silent_test : admit_task_intent world tables head "" "hello" false ≡ ok (tables, none)
unfolding admit_task_intent
silent_test = refl

head_find : find_intent_run "b" tables.runs ≡ some second_run
unfolding find_intent_run
head_find = refl

first_find : find_intent_run "a" tables.runs ≡ some first_run
unfolding find_intent_run
first_find = refl

first_named : trim_space "a" ≡ "a"
unfolding trim_space
first_named = refl

unretired_eq : retired_intent (intent_id "b") tables.intents ≡ false
unfolding retired_intent
unretired_eq = refl

admit_task_intent-supersedes_example :
    (ensure_task_current after "a" ≡ err task_superseded)
    × All (λ (d : OutboxRow). d.run_id ≡ "a" → is_open d ≡ false) after.outbox
    × (ensure_task_current after "b" ≡ ok tt)
admit_task_intent-supersedes_example =
    admit_task_intent-supersedes world tables head "correction" "make it black" false "a" refl
      correction_eq refl head_find first_find refl refl (ap (λ t. str_eq t "") first_named) refl
      unretired_eq

-- ===== src/Intents/Store.antt =====
-- The tables that go/task_intent.go reads and changes, and the type `TaskIntent`.
use Prim.Native.String.{◌++◌}
use erdai_agent.Prelude.{
  ℕ, ltb, Bool, false, ◌&&◌, ◌||◌, if◌then◌else◌, String, Option, none, some, str_eq, List, [], ◌∷◌,
}
use erdai_agent.Text.{trim_space}
use erdai_agent.Core.{Stamp, Env, Error, Result, ok, err, failed}

-- `TaskIntent`
pub record TaskIntent : Type 0 where
  pub version : ℕ
  pub task_id : String
  pub revision : ℕ
  pub action : String
  pub goal : String
  pub user_request : String
  pub constraints : List String
  pub forbidden : List String
  pub source_message_id : String
  pub referenced_message_id : String
  pub previous_run_id : String
  pub clarification : String
  pub parsed_by : String
  pub expires_at : String
  pub retired : Bool

-- the columns of `agent_runs` that an admission reads or changes
pub record IntentRun : Type 0 where
  pub id : String
  pub message_id : String
  pub state : String
  pub error_code : Option String
  pub task_id : String
  pub task_revision : ℕ
  pub task_scope_key : String
  pub task_action : String
  pub created_at : String
  pub updated_at : Stamp

-- the row of `agent_task_steps` that holds an intent
pub record IntentStep : Type 0 where
  pub id : String
  pub run_id : String
  pub status : String
  pub output_cipher : Option String
  pub error_code : String
  pub updated_at : Stamp

-- the columns of `agent_deliveries` that an admission reads or changes
pub record OutboxRow : Type 0 where
  pub id : String
  pub run_id : String
  pub status : String
  pub lease_owner : Option String
  pub lease_expires_at : Option String
  pub next_attempt_at : Option String
  pub last_error : Option String
  pub updated_at : Stamp

-- a row of `platform_sent_delivery_parts`
pub record SentPart : Type 0 where
  pub delivery_id : String
  pub message_id : String

pub record IntentDb : Type 0 where
  pub runs : List IntentRun
  pub intents : List IntentStep
  pub outbox : List OutboxRow
  pub parts : List SentPart

-- the fields of `runRecord` that an admission reads, with `taskScopeKey` of the run
pub record RunHead : Type 0 where
  pub id : String
  pub message_id : String
  pub reply_to_message_id : String
  pub scope_key : String

-- JSON, the cipher and SQLite's `julianday` are of the environment
pub record IntentEnv : Type 0 where
  pub env : Env
  pub julianday : String → Option ℕ
  pub encode : TaskIntent → Option String
  pub decode : String → Option TaskIntent
  pub decrypt : String → Option String

-- the identifier of the row of an intent
abbrev pub intent_id : String → String
intent_id run = run ++ ":intent"

unfoldable pub find_intent_run : String → List IntentRun → Option IntentRun
find_intent_run id [] = none
find_intent_run id (r ∷ rs) =
    let rest = find_intent_run id rs in if str_eq r.id id then some r else rest

unfoldable pub find_intent : String → List IntentStep → Option IntentStep
find_intent id [] = none
find_intent id (s ∷ ss) = let rest = find_intent id ss in if str_eq s.id id then some s else rest

-- WHERE task_id = ? AND task_scope_key = ?
abbrev pub of_task : String → String → IntentRun → Bool
of_task task scope r = str_eq r.task_id task && str_eq r.task_scope_key scope

-- EXISTS of a newer revision of a task
unfoldable pub newer_revision : String → String → ℕ → List IntentRun → Bool
newer_revision task scope revision [] = false
newer_revision task scope revision (r ∷ rs) =
    (of_task task scope r && ltb revision r.task_revision) || newer_revision task scope revision rs

-- EXISTS of an intent that was retired
unfoldable pub retired_intent : String → List IntentStep → Bool
retired_intent id [] = false
retired_intent id (s ∷ ss) =
    (str_eq s.id id && str_eq s.error_code "task_intent_expired") || retired_intent id ss

abbrev pub task_superseded : Error
task_superseded = failed "task revision is cancelled or superseded"

abbrev pub task_expired : Error
task_expired = failed "task intent retention expired; submit a new task"

unfoldable pub check_current : IntentDb → Option IntentRun → Result (Unit {0})
check_current db none = ok tt
check_current db (some r) =
    if str_eq r.state "cancelled"
      || newer_revision r.task_id r.task_scope_key r.task_revision db.runs
    then err task_superseded
    else if retired_intent (intent_id r.id) db.intents
    then err task_expired
    else ok tt

-- `ensureTaskCurrentQuery`
unfoldable pub ensure_task_current : IntentDb → String → Result (Unit {0})
unfolding check_current find_intent_run
ensure_task_current db run =
    if str_eq (trim_space run) "" then ok tt else check_current db (find_intent_run run db.runs)

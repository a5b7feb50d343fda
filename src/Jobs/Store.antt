-- ===== src/Jobs/Store.antt =====
-- The tables of go/durable_jobs.go: `durable_jobs`, `durable_job_events`, `durable_job_results`.
-- A statement is applied as a whole: `UPDATE … WHERE` touches each row that the test accepts. The
-- effect of a failing database is not modelled: a transaction is rolled back then.
use erdai_agent.Prelude.{
  ℕ, suc, Bool, if◌then◌else◌, String, Option, none, some, str_eq, List, [], ◌∷◌, ◌++◌, ℤ,
}
use erdai_agent.Core.{Stamp, Env, now_stamp}
use erdai_agent.Jobs.Status.{Status}

-- A value of the plan's JSON object: the program reads texts only.
pub data PlanValue : Type 0 where
  text : String → PlanValue
  other : PlanValue

abbrev pub Plan : Type 0
Plan = List (String × PlanValue)

-- a row of `durable_jobs`; `none` is NULL
pub record Job : Type 0 where
  pub id : String
  pub owner_id : String
  pub workspace_id : String
  pub bot_id : String
  pub source_transport : String
  pub source_conversation_ref : String
  pub source_message_id : String
  pub title : String
  pub goal_cipher : String
  pub plan : Plan
  pub status : Status
  pub requires_approval : Bool
  pub priority : ℤ
  pub next_action : String
  pub next_run_at : Option Stamp
  pub lease_owner : Option String
  pub lease_expires_at : Option Stamp
  pub heartbeat_at : Option Stamp
  pub attempts : ℕ
  pub max_attempts : ℕ
  pub idempotency_key : String
  pub last_error : String
  pub created_at : Stamp
  pub updated_at : Stamp
  pub started_at : Option Stamp
  pub finished_at : Option Stamp

pub data Payload : Type 0 where
  no_payload : Payload
  goal_length : ℕ → Payload
  lease_until : Stamp → Payload
  attempt : ℕ → Payload

-- a row of `durable_job_events`; the `from_status` of a new job is empty
pub record Event : Type 0 where
  pub job_id : String
  pub event_type : String
  pub from_status : Option Status
  pub to_status : Status
  pub reason : String
  pub next_action : String
  pub actor : String
  pub payload : Payload
  pub created_at : Stamp

-- a row of `durable_job_results`
pub record JobResult : Type 0 where
  pub job_id : String
  pub attempt : ℕ
  pub result_cipher : String
  pub created_at : Stamp

pub record Store : Type 0 where
  pub jobs : List Job
  pub events : List Event
  pub results : List JobResult

-- SELECT … WHERE id = ?
unfoldable pub find_job : String → List Job → Option Job
find_job id [] = none
find_job id (j ∷ js) = if str_eq j.id id then some j else find_job id js

-- UPDATE durable_jobs SET f WHERE test
unfoldable pub update_where : (Job → Bool) → (Job → Job) → List Job → List Job
update_where test f [] = []
update_where test f (j ∷ js) = (if test j then f j else j) ∷ update_where test f js

-- the rows affected by that statement
unfoldable pub count_where : (Job → Bool) → List Job → ℕ
count_where test [] = 0
count_where test (j ∷ js) = let rest = count_where test js in if test j then suc rest else rest

abbrev pub has_id : String → Job → Bool
has_id id j = str_eq j.id id

-- the row that `appendDurableJobEvent` inserts
abbrev pub event_row :
    Env → String → String → Option Status → Status → String → String → String → Payload → Event
event_row e job_id event_type from to reason next_action actor payload = record {
  job_id = job_id;
  event_type = event_type;
  from_status = from;
  to_status = to;
  reason = reason;
  next_action = next_action;
  actor = actor;
  payload = payload;
  created_at = now_stamp e;
}

-- `appendDurableJobEvent`
unfoldable pub append_event :
    Env
    → String
    → String
    → Option Status
    → Status
    → String
    → String
    → String
    → Payload
    → Store
    → Store
append_event e job_id event_type from to reason next_action actor payload s = record s {
  events = s.events ++ event_row e job_id event_type from to reason next_action actor payload ∷ [];
}

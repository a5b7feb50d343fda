-- ===== src/Jobs/Create.antt =====
-- `createDurableJob` of go/durable_jobs.go.
use Prim.Native.String.{count, len}
use erdai_agent.Prelude.{
  ℕ, zero, suc, Bool, true, false, not, ◌&&◌, ◌||◌, if◌then◌else◌, String, Option, none, some,
  str_eq, List, [], ◌∷◌, ◌++◌, ltb, ℤ, pos, negsuc, ltb_ℤ,
}
use erdai_agent.Core.{
  Env, Stamp, now_stamp, Result, ok, err, ◌>>=◌, ◌>>◌, guard, or_fail, invalid, conflict, failed,
  normalize_core_text,
}
use erdai_agent.Text.{trim_space}
use erdai_agent.Jobs.Status.{Status, planned, queued, waiting_approval}
use erdai_agent.Jobs.Store.{Plan, Job, Store, goal_length, find_job, append_event}
use erdai_agent.Jobs.Goal.{needs_approval, plan_from_goal}
use erdai_agent.Jobs.Manage.{waiting_claim, with_record}

-- `durableJobCreatePayload`
pub record CreatePayload : Type 0 where
  pub owner_id : String
  pub workspace_id : String
  pub bot_id : String
  pub source_transport : String
  pub source_conversation_ref : String
  pub source_message_id : String
  pub title : String
  pub goal : String
  pub instruction : String
  pub plan : Option Plan
  pub requires_approval : Bool
  pub priority : ℤ
  pub next_run_at : String
  pub max_attempts : ℤ
  pub idempotency_key : String
  pub start_immediately : Option Bool

abbrev pub legacy_agent_instance_id : String
legacy_agent_instance_id = "legacy-default"

-- a text that is empty after normalising takes the default
abbrev pub or_default : String → String → String
or_default value d = if str_eq value "" then d else value

abbrev out_of : ℤ → ℤ → ℤ → Bool
out_of lo hi n = ltb_ℤ n lo || ltb_ℤ hi n

-- 0 stands for 100
unfoldable pub check_priority : ℤ → Result ℤ
check_priority (pos zero) = ok (pos 100)
check_priority p =
    if out_of (negsuc 9999) (pos 10000) p then err (invalid "priority is out of range") else ok p

-- 0 stands for 3; a negative number is out of range
unfoldable pub check_max_attempts : ℤ → Result ℕ
check_max_attempts (pos zero) = ok 3
check_max_attempts (pos (suc n)) =
    if ltb 100 (suc n) then err (invalid "maxAttempts is out of range") else ok (suc n)
check_max_attempts (negsuc n) = err (invalid "maxAttempts is out of range")

unfoldable pub check_next_run : Env → String → Result (Option Stamp)
check_next_run e value = if str_eq value "" then ok none else elim (e.parse_time value) [
  | none ↦ err (invalid "nextRunAt must be RFC3339")
  | some t ↦ ok (some (record { text = value; instant = t }))
]

-- `input.StartImmediately != nil && !*input.StartImmediately`
abbrev deferred : Option Bool → Bool
deferred none = false
deferred (some start) = not start

abbrev has_time : Option Stamp → Bool
has_time none = false
has_time (some t) = true

unfoldable pub initial_status : Bool → Option Bool → Option Stamp → Status
initial_status approval start next =
    if approval
    then waiting_approval
    else if deferred start || has_time next
    then planned
    else queued

-- WHERE owner_id = ? AND workspace_id = ? AND idempotency_key = ?
abbrev pub same_key : String → String → String → Job → Bool
same_key owner workspace key j =
    str_eq j.owner_id owner && str_eq j.workspace_id workspace && str_eq j.idempotency_key key

unfoldable pub find_key : String → String → String → List Job → Option Job
find_key owner workspace key [] = none
find_key owner workspace key (j ∷ js) =
    if same_key owner workspace key j then some j else find_key owner workspace key js

-- the lookup is made for a key that is not empty
unfoldable pub find_existing : String → String → String → List Job → Option Job
unfolding find_key
find_existing owner workspace key js =
    if str_eq key "" then none else find_key owner workspace key js

-- the INSERT: the primary key is the constraint that can fail here
unfoldable pub insert_job : Env → Job → ℕ → Store → Result Store
unfolding append_event
insert_job e j goal_runes s = elim (find_job j.id s.jobs) [
  | some k ↦ err (conflict "durable job idempotency key already exists")
  | none ↦ ok (
      append_event e j.id "created" none j.status "" waiting_claim "admin" (goal_length goal_runes)
        (record s { jobs = s.jobs ++ j ∷ [] }))
]

-- the job that is inserted, from the normalised input
pub record Draft : Type 0 where
  pub owner : String
  pub workspace : String
  pub bot : String
  pub title : String
  pub goal : String
  pub priority : ℤ
  pub max_attempts : ℕ
  pub next_run_at : Option Stamp

-- the checks that stand before the cipher
unfoldable pub normalize_payload : Env → CreatePayload → Result Draft
normalize_payload e input = do
  let instruction = trim_space input.instruction
  goal ←
      normalize_core_text (if str_eq instruction "" then trim_space input.goal else instruction)
        "goal" 8000 true
  owner ← normalize_core_text input.owner_id "ownerId" 160 false
  workspace ← normalize_core_text input.workspace_id "workspaceId" 160 false
  bot ← normalize_core_text input.bot_id "botId" 160 false
  title ← normalize_core_text input.title "title" 240 false
  priority ← check_priority input.priority
  max_attempts ← check_max_attempts input.max_attempts
  next ← check_next_run e input.next_run_at
  guard (not (ltb 160 (len input.idempotency_key))) (invalid "idempotencyKey is too long")
  ok (record {
    owner = or_default owner "admin";
    workspace = or_default workspace "default";
    bot = or_default bot legacy_agent_instance_id;
    title = title;
    goal = goal;
    priority = priority;
    max_attempts = max_attempts;
    next_run_at = next;
  })

abbrev pub plan_or : Option Plan → Option Plan → Plan
plan_or (some p) d = p
plan_or none (some p) = p
plan_or none none = []

-- the row of the INSERT; the gate is the caller's wish or the goal's words
unfoldable pub new_job : Env → CreatePayload → Draft → String → String → Job
new_job e input d id cipher =
    let approval = input.requires_approval || needs_approval e d.goal in
    record {
      id = id;
      owner_id = d.owner;
      workspace_id = d.workspace;
      bot_id = d.bot;
      source_transport = input.source_transport;
      source_conversation_ref = input.source_conversation_ref;
      source_message_id = input.source_message_id;
      title = d.title;
      goal_cipher = cipher;
      plan = plan_or input.plan (plan_from_goal d.goal);
      status = initial_status approval input.start_immediately d.next_run_at;
      requires_approval = approval;
      priority = d.priority;
      next_action = waiting_claim;
      next_run_at = d.next_run_at;
      lease_owner = none;
      lease_expires_at = none;
      heartbeat_at = none;
      attempts = 0;
      max_attempts = d.max_attempts;
      idempotency_key = input.idempotency_key;
      last_error = "";
      created_at = now_stamp e;
      updated_at = now_stamp e;
      started_at = none;
      finished_at = none;
    }

-- the transaction; `true` tells the caller that the job was there
unfoldable pub create_in :
    Env → Store → CreatePayload → Draft → String → String → Result (Store × Job × Bool)
create_in e s input d id cipher =
    elim (find_existing d.owner d.workspace input.idempotency_key s.jobs) [
      | some j ↦ with_record j.id s >>= λ p. ok (p.0, p.1, true)
      | none ↦ insert_job e (new_job e input d id cipher) (count d.goal) s >>= λ s'.
          with_record id s' >>= λ p. ok (p.0, p.1, false)
    ]

unfoldable pub create_job : Env → Store → CreatePayload → Result (Store × Job × Bool)
create_job e s input = do
  d ← normalize_payload e input
  guard e.aead (failed "durable job encryption is unavailable")
  cipher ← or_fail (e.encrypt d.goal) (failed "encryption")
  id ← or_fail e.new_id (failed "random identifier")
  create_in e s input d id cipher

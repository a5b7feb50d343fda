-- ===== src/Jobs/Manage.antt =====
-- The operations of a user or an administrator on an existing job: `transitionDurableJob` and
-- `updateDurableJobGoal` of go/durable_jobs.go.
use Prim.Native.String.{count, ◌++◌}
use erdai_agent.Prelude.{
  Bool, true, false, not, ◌&&◌, ◌||◌, if◌then◌else◌, String, Option, none, some, str_eq, [],
}
use erdai_agent.Core.{
  Env, now_stamp, Result, ok, err, ◌>>=◌, ◌>>◌, guard, or_fail, invalid, not_found, failed,
  normalize_core_text,
}
use erdai_agent.Text.{trim_space}
use erdai_agent.Jobs.Status.{
  Status, queued, waiting_approval, paused, retrying, succeeded, failed as failed_status, cancelled,
  dead_letter, is, status_text, transition_allowed,
}
use erdai_agent.Jobs.Store.{
  Job, Store, no_payload, goal_length, find_job, update_where, has_id, append_event,
}
use erdai_agent.Jobs.Goal.{needs_approval, plan_from_goal}

pub data Action : Type 0 where
  pause resume cancel retry approve : Action

-- the keys of the map from actions to targets
unfoldable pub parse_action : String → Option Action
parse_action action =
    if str_eq action "pause"
    then some pause
    else if str_eq action "resume"
    then some resume
    else if str_eq action "cancel"
    then some cancel
    else if str_eq action "retry"
    then some retry
    else if str_eq action "approve"
    then some approve
    else none

abbrev pub target : Action → Status
target pause = paused
target resume = queued
target cancel = cancelled
target retry = retrying
target approve = queued

abbrev pub is_approve : Action → Bool
is_approve approve = true
is_approve _ = false

abbrev is_cancel : Action → Bool
is_cancel cancel = true
is_cancel _ = false

abbrev pub waiting_claim : String
waiting_claim = "等待调度器领取"

abbrev pub is_final : Status → Bool
is_final to = is to succeeded || is to failed_status || is to cancelled || is to dead_letter

-- `nextAction` for a target
abbrev pub next_action_of : Status → String
next_action_of to =
    if is_final to
    then "已结束"
    else if is to waiting_approval
    then "等待管理员批准"
    else if is to paused
    then "等待恢复"
    else waiting_claim

-- the row that the UPDATE of `transitionDurableJob` writes
unfoldable pub transition_row : Env → Action → Job → Job
transition_row e a j = record j {
  status = target a;
  requires_approval = if is_approve a then false else j.requires_approval;
  next_action = next_action_of (target a);
  last_error = if is (target a) retrying then "" else j.last_error;
  lease_owner = none;
  lease_expires_at = none;
  heartbeat_at = none;
  updated_at = now_stamp e;
  finished_at = if is_final (target a) then some (now_stamp e) else j.finished_at;
}

-- `durableJobRecord` at the end of an operation: the row as it is stored then
abbrev pub with_record : String → Store → Result (Store × Job)
with_record id s = or_fail (find_job id s.jobs) (not_found "durable job") >>= λ j. ok (s, j)

-- the guards of `transitionDurableJob`, in its order
unfoldable pub check_transition : Action → Status → Result (Unit {0})
unfolding transition_allowed
check_transition a status =
    if is status waiting_approval && not (is_approve a) && not (is_cancel a)
    then err (invalid "durable job is waiting for approval")
    else if is_approve a && not (is status waiting_approval)
    then err (invalid "durable job is not waiting for approval")
    else if not (transition_allowed status (target a))
    then err (
        invalid (
          "durable job cannot transition from "
          ++ status_text status
          ++ " to "
          ++ status_text (target a)))
    else ok tt

unfoldable pub apply_transition :
    Env → Store → String → Action → String → String → Result (Store × Job)
unfolding append_event
apply_transition e s id a action actor = do
  j ← or_fail (find_job id s.jobs) (not_found "durable job")
  check_transition a j.status
  let s' = record s { jobs = update_where (has_id id) (transition_row e a) s.jobs }
  with_record id (
      append_event e id action (some j.status) (target a) "" (next_action_of (target a)) actor
        no_payload s')

unfoldable pub transition_job : Env → Store → String → String → String → Result (Store × Job)
transition_job e s id action actor = do
  a ← or_fail (parse_action action) (invalid "unsupported durable job action")
  apply_transition e s id a action actor

abbrev pub terminal : Status → Bool
terminal status = is status succeeded || is status cancelled || is status dead_letter

-- the status that a job with a new goal takes
abbrev pub goal_target : Bool → Status
goal_target approval = if approval then waiting_approval else queued

-- the row that the UPDATE of `updateDurableJobGoal` writes
unfoldable pub goal_row : Env → String → String → Job → Job
goal_row e goal cipher j = record j {
  goal_cipher = cipher;
  plan = elim (plan_from_goal goal) [ none ↦ [] | some p ↦ p ];
  requires_approval = needs_approval e goal;
  status = goal_target (needs_approval e goal);
  next_action = waiting_claim;
  next_run_at = none;
  last_error = "";
  lease_owner = none;
  lease_expires_at = none;
  heartbeat_at = none;
  finished_at = none;
  updated_at = now_stamp e;
}

-- from the statement that opens the transaction on
unfoldable pub store_goal : Env → Store → String → String → String → String → Result (Store × Job)
unfolding append_event
store_goal e s id goal cipher actor = do
  j ← or_fail (find_job id s.jobs) (not_found "durable job")
  guard (not (terminal j.status)) (invalid "terminal durable job cannot be edited")
  let s' = record s { jobs = update_where (has_id id) (goal_row e goal cipher) s.jobs }
  with_record id (
      append_event e id "goal_updated" (some j.status) (goal_target (needs_approval e goal))
        "user changed the goal" waiting_claim actor (goal_length (count goal)) s')

unfoldable pub update_goal : Env → Store → String → String → String → Result (Store × Job)
update_goal e s id goal actor = do
  guard (not (str_eq (trim_space goal) "")) (invalid "goal is required")
  goal' ← normalize_core_text (trim_space goal) "goal" 8000 true
  guard e.aead (failed "durable job encryption is unavailable")
  cipher ← or_fail (e.encrypt goal') (failed "encryption")
  store_goal e s id goal' cipher actor

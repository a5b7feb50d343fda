-- ===== src/Jobs/Finish.antt =====
-- The end of a round: `finishDurableJob` of go/durable_jobs.go. The update of the synthetic row of
-- `agent_runs` after the commit touches another table and is not modelled.
use erdai_agent.Prelude.{
  ℕ, ◌+◌, ◌-◌, ◌*◌, ◌^◌, Bool, ◌&&◌, ◌||◌, if◌then◌else◌, String, Option, none, some, str_eq, List,
  [], ◌∷◌, leb, ltb, ◌==◌,
}
use erdai_agent.Core.{
  Env, Stamp, stamp, now_stamp, minute, Result, ok, err, ◌>>=◌, or_fail, invalid, failed,
}
use erdai_agent.Text.{trim_space}
use erdai_agent.Jobs.Status.{
  Status, planned, running, retrying, succeeded, dead_letter, unknown_manual, is,
}
use erdai_agent.Jobs.Store.{Job, JobResult, Store, attempt, update_where, count_where, append_event}
use erdai_agent.Jobs.Goal.{next_run}
use erdai_agent.Jobs.Worker.{held_by}

-- `runErr`: `uncertain` is `errTaskExecutionUncertain`, a cancelled or an expired context
pub data RunError : Type 0 where
  uncertain : String → RunError
  plain : String → RunError

-- the status, reason and next action that `finishDurableJob` settles on, and the next round
pub record Outcome : Type 0 where
  pub status : Status
  pub reason : String
  pub next_action : String
  pub next_round : Option ℕ

-- the job as the worker holds it decides, not the row
unfoldable pub outcome : Env → Job → Option RunError → Outcome
outcome e job none = elim (next_run e job.plan e.now) [
  | none ↦ record { status = succeeded; reason = "执行完成"; next_action = "已完成"; next_round = none }
  | some t ↦ record {
    status = planned;
    reason = "本轮执行完成";
    next_action = "等待下一次执行";
    next_round = some t;
  }
]
outcome e job (some (uncertain message)) = record {
  status = unknown_manual;
  reason = message;
  next_action = "需要人工确认执行结果";
  next_round = none;
}
outcome e job (some (plain message)) =
    if leb job.max_attempts job.attempts
    then record {
      status = dead_letter;
      reason = message;
      next_action = "已超过最大重试次数";
      next_round = none;
    }
    else record { status = retrying; reason = message; next_action = "等待自动重试"; next_round = none }

abbrev pub min_int : ℕ → ℕ → ℕ
min_int a b = if ltb a b then a else b

-- `time.Duration(1<<minInt(job.Attempts-1, 6)) * time.Minute`, for `job.Attempts` of at least 1
unfoldable pub backoff : ℕ → ℕ
backoff attempts = 2 ^ min_int (attempts - 1) 6 * minute

abbrev stamp_of : Env → Option ℕ → Option Stamp
stamp_of e none = none
stamp_of e (some t) = some (stamp e t)

-- `nextRun`
unfoldable pub next_stamp : Env → Job → Outcome → Option Stamp
unfolding backoff
next_stamp e job o =
    if is o.status retrying
    then some (stamp e (e.now + backoff job.attempts))
    else stamp_of e o.next_round

abbrev ends : Status → Bool
ends status = is status succeeded || is status dead_letter || is status unknown_manual

-- the row that `finishDurableJob` writes
unfoldable pub finished_row : Env → Job → Outcome → Job → Job
finished_row e job o j = record j {
  status = o.status;
  next_action = o.next_action;
  next_run_at = next_stamp e job o;
  last_error = trim_space o.reason;
  lease_owner = none;
  lease_expires_at = none;
  heartbeat_at = none;
  updated_at = now_stamp e;
  finished_at = if ends o.status then some (now_stamp e) else none;
}

drop_result : String → ℕ → List JobResult → List JobResult
drop_result id n [] = []
drop_result id n (r ∷ rs) =
    let rest = drop_result id n rs in
    if str_eq r.job_id id && r.attempt == n then rest else r ∷ rest

-- INSERT OR REPLACE, on the key (job_id, attempt)
unfoldable pub put_result : Env → String → ℕ → String → List JobResult → List JobResult
unfolding drop_result
put_result e id n cipher rs =
    record { job_id = id; attempt = n; result_cipher = cipher; created_at = now_stamp e }
    ∷ drop_result id n rs

-- a successful round stores its reply, encrypted
unfoldable pub store_reply : Env → Job → Option RunError → String → Store → Result Store
unfolding put_result
store_reply e job (some x) reply s = ok s
store_reply e job none reply s = do
  cipher ← or_fail (e.encrypt reply) (failed "encryption")
  ok (record s { results = put_result e job.id job.attempts cipher s.results })

-- the UPDATE that is fenced by the status and the lease's owner, and the event
unfoldable pub settle : Env → Store → Job → String → Outcome → Result Store
unfolding append_event
settle e s job w o =
    let test = held_by job.id running w in
    if count_where test s.jobs == 1
    then ok (
        append_event e job.id "finished" (some running) o.status o.reason o.next_action w
          (attempt job.attempts)
          (record s { jobs = update_where test (finished_row e job o) s.jobs }))
    else err (invalid "durable job lease is no longer active")

unfoldable pub finish_job : Env → Store → Job → String → String → Option RunError → Result Store
finish_job e s job w reply run_err = do
  s' ← store_reply e job run_err reply s
  settle e s' job w (outcome e job run_err)

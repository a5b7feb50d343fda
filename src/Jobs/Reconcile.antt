-- ===== src/Jobs/Reconcile.antt =====
-- The reconciler: `reconcileDurableJobs` of go/durable_jobs.go.
use erdai_agent.Prelude.{
  ℕ, Bool, false, not, ◌&&◌, ◌||◌, if◌then◌else◌, String, Option, none, some, List, [], ◌∷◌, leb,
}
use erdai_agent.Core.{Env, Stamp, now_stamp}
use erdai_agent.Jobs.Status.{Status, planned, queued, leased, running, retrying, unknown_manual, is}
use erdai_agent.Jobs.Store.{Job, Store, no_payload, update_where, append_event}
use erdai_agent.Jobs.Manage.{waiting_claim}
use erdai_agent.Jobs.Worker.{reached, with_status}

-- `t IS NOT NULL AND julianday(t) <= julianday(now)`
abbrev pub past : Option Stamp → ℕ → Bool
past none now = false
past (some t) now = leb t.instant now

-- the WHERE of the reconciler's SELECT
unfoldable pub is_due : ℕ → Job → Bool
is_due now j =
    (is j.status planned && not j.requires_approval && past j.next_run_at now)
    || (is j.status retrying && reached j.next_run_at now)
    || (is j.status leased && past j.lease_expires_at now)
    || (is j.status running && past j.lease_expires_at now)

pub record DueJob : Type 0 where
  pub id : String
  pub status : Status

unfoldable pub due_jobs : ℕ → List Job → List DueJob
due_jobs now [] = []
due_jobs now (j ∷ js) =
    let rest = due_jobs now js in
    if is_due now j then record { id = j.id; status = j.status } ∷ rest else rest

-- what the loop decides from a due job's status
abbrev pub due_target : Status → Status
due_target from = if is from running then unknown_manual else queued

abbrev pub due_event : Status → String
due_event from =
    if is from retrying
    then "retry_due"
    else if is from running
    then "lease_expired"
    else "scheduled"

abbrev pub due_reason : Status → String
due_reason from =
    if is from retrying
    then "retry backoff elapsed"
    else if is from running
    then "running lease expired; side effect may be unknown"
    else "next_run_at reached"

abbrev pub due_next_action : Status → String
due_next_action from = if is from running then "需要人工确认执行结果" else waiting_claim

-- the row that the UPDATE writes
unfoldable pub due_row : Env → Status → Job → Job
due_row e from j = record j {
  status = due_target from;
  next_action = due_next_action from;
  lease_owner = none;
  lease_expires_at = none;
  heartbeat_at = none;
  updated_at = now_stamp e;
  last_error = due_reason from;
}

-- one round of the loop over the due jobs
unfoldable pub reconcile_one : Env → DueJob → Store → Store
unfolding append_event
reconcile_one e d s =
    append_event e d.id (due_event d.status) (some d.status) (due_target d.status)
      (due_reason d.status) (due_next_action d.status) "reconciler" no_payload
      (record s { jobs = update_where (with_status d.id d.status) (due_row e d.status) s.jobs })

unfoldable pub reconcile_each : Env → List DueJob → Store → Store
reconcile_each e [] s = s
reconcile_each e (d ∷ ds) s = reconcile_each e ds (reconcile_one e d s)

unfoldable pub reconcile : Env → Store → Store
reconcile e s = reconcile_each e (due_jobs e.now s.jobs) s

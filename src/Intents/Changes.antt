-- ===== src/Intents/Changes.antt =====
-- The statements of `admitTaskIntentTx` and `persistTaskIntentTx` of go/task_intent.go that change rows.
use erdai_agent.Prelude.{
  ℕ, ltb, Bool, false, ◌&&◌, ◌||◌, not, if◌then◌else◌, String, none, some, str_eq, List, [], ◌∷◌,
  map,
}
use erdai_agent.Core.{Stamp}
use erdai_agent.Intents.Store.{
  TaskIntent, IntentRun, IntentStep, OutboxRow, IntentDb, RunHead, of_task,
}

-- COALESCE(max(task_revision), 0)
unfoldable pub max_revision : String → String → List IntentRun → ℕ
max_revision task scope [] = 0
max_revision task scope (r ∷ rs) =
    let rest = max_revision task scope rs in
    if of_task task scope r && ltb rest r.task_revision then r.task_revision else rest

abbrev is_active : String → Bool
is_active state = str_eq state "queued" || str_eq state "running" || str_eq state "responding"

-- the UPDATE that cancels the other runs of a task
abbrev pub cancelled_run : Stamp → String → String → String → IntentRun → IntentRun
cancelled_run now task scope run r =
    if of_task task scope r && not (str_eq r.id run) && is_active r.state
    then record r {
      state = "cancelled";
      error_code = some "task_revision_superseded";
      updated_at = now;
    }
    else r

-- run_id IN (SELECT id FROM agent_runs WHERE task_id = ? AND task_scope_key = ? AND id <> ?)
unfoldable pub is_other_run : String → String → String → String → List IntentRun → Bool
is_other_run task scope run id [] = false
is_other_run task scope run id (r ∷ rs) =
    (of_task task scope r && not (str_eq r.id run) && str_eq r.id id)
    || is_other_run task scope run id rs

abbrev pub is_open : OutboxRow → Bool
is_open d = str_eq d.status "pending" || str_eq d.status "sending"

-- the UPDATE that cancels their deliveries
unfoldable pub cancelled_delivery :
    Stamp → String → String → String → List IntentRun → OutboxRow → OutboxRow
unfolding is_other_run
cancelled_delivery now task scope run runs d =
    if is_open d && is_other_run task scope run d.run_id runs
    then record d {
      status = "cancelled";
      lease_owner = none;
      lease_expires_at = none;
      next_attempt_at = none;
      last_error = some "task_revision_superseded";
      updated_at = now;
    }
    else d

unfoldable pub supersede : Stamp → String → String → String → IntentDb → IntentDb
unfolding cancelled_delivery
supersede now task scope run db =
    let runs = map (cancelled_run now task scope run) db.runs in
    record db { runs = runs; outbox = map (cancelled_delivery now task scope run runs) db.outbox }

-- the UPDATE of the run that is admitted
abbrev pub admitted_run : TaskIntent → RunHead → IntentRun → IntentRun
admitted_run intent run r =
    if str_eq r.id run.id
    then record r {
      task_id = intent.task_id;
      task_revision = intent.revision;
      task_scope_key = run.scope_key;
      task_action = intent.action;
    }
    else r

-- INSERT … ON CONFLICT(id) DO UPDATE
unfoldable pub put_intent : IntentStep → List IntentStep → List IntentStep
put_intent fresh [] = fresh ∷ []
put_intent fresh (s ∷ ss) =
    let rest = put_intent fresh ss in
    if str_eq s.id fresh.id
    then record s { output_cipher = fresh.output_cipher; updated_at = fresh.updated_at } ∷ ss
    else s ∷ rest

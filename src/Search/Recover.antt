-- ===== src/Search/Recover.antt =====
-- `recoverInterruptedRuntime` of go/runtime_recovery.go, the one transaction of a start after a crash,
-- and `retryTask` of go/task_graph.go.
use Prim.Native.String.{len, ◌++◌}
use erdai_agent.Prelude.{
  ℕ, ltb, ◌==◌, Bool, true, false, ◌&&◌, ◌||◌, not, if◌then◌else◌, String, Option, none, some,
  str_eq, List, [], ◌∷◌, map,
}
use erdai_agent.Core.{Stamp, Result, ok, guard, or_fail, ◌>>=◌, ◌>>◌, invalid, not_found}
use erdai_agent.Text.{trim_space, like_prefix}
use erdai_agent.Tasks.Store.{Receipt}
use erdai_agent.Search.Store.{Query, TaskRun, Delivery, SearchDb, find_query, known, delete_queries}

-- INSERT OR IGNORE INTO agent_search_queries SELECT … FROM agent_search_runs
unfoldable pub move_receipts : List Query → List Query → List Query
move_receipts [] qs = qs
move_receipts (q ∷ older) qs =
    let rest = move_receipts older (q ∷ qs) in
    let same = move_receipts older qs in
    if known (find_query q.run_id q.query_hash qs) then same else rest

abbrev pub still_running : Query → Bool
still_running q = str_eq q.status "running"

abbrev pub has_input : Option String → Bool
has_input none = false
has_input (some c) = true

-- the UPDATE of an interrupted run: one with an input is queued again
abbrev pub requeued : Stamp → TaskRun → TaskRun
requeued now r =
    if str_eq r.state "running" && has_input r.input_cipher
    then record r { state = "queued"; updated_at = now }
    else r

-- name IN ('generate_image', 'grok_generate_image', 'grok_generate_video')
abbrev pub is_generation : String → Bool
is_generation name =
    str_eq name "generate_image"
    || str_eq name "grok_generate_image"
    || str_eq name "grok_generate_video"

-- name LIKE 'media_quality:%' OR name LIKE 'media_generation:%'
unfoldable pub is_media_checkpoint : String → Bool
is_media_checkpoint name = like_prefix "media_quality:" name || like_prefix "media_generation:" name

-- the UPDATE of an interrupted step: a generation, which may have been paid for, stays
unfoldable pub suspended : Stamp → Receipt → Receipt
unfolding is_media_checkpoint
suspended now s =
    if str_eq s.status "running" && not (is_generation s.name) && not (is_media_checkpoint s.name)
    then record s { status = "pending"; updated_at = now }
    else s

-- `recoverInterruptedRuntime`
unfoldable pub recover_interrupted_runtime : Stamp → SearchDb → SearchDb
unfolding move_receipts suspended
recover_interrupted_runtime now db = record db {
  legacy = [];
  queries = delete_queries still_running (move_receipts db.legacy db.queries);
  runs = map (requeued now) db.runs;
  steps = map (suspended now) db.steps;
}

unfoldable pub find_run : String → List TaskRun → Option TaskRun
find_run id [] = none
find_run id (r ∷ rs) = let rest = find_run id rs in if str_eq r.id id then some r else rest

-- SELECT count(*) … WHERE the test, compared with 0
unfoldable pub any_step : (Receipt → Bool) → List Receipt → Bool
any_step test [] = false
any_step test (s ∷ ss) = test s || any_step test ss

abbrev intent_expired : String → Receipt → Bool
intent_expired run s = str_eq s.id (run ++ ":intent") && str_eq s.error_code "task_intent_expired"

abbrev is_uncertain : String → Receipt → Bool
is_uncertain run s =
    str_eq s.run_id run
    && (str_eq s.error_code "task_execution_uncertain"
        || (str_eq s.status "running" && is_generation s.name))

abbrev bytes_of : Option String → ℕ
bytes_of none = 0
bytes_of (some c) = len c

has_checkpoint : String → Receipt → Bool
unfolding is_media_checkpoint
has_checkpoint run s =
    str_eq s.run_id run && is_media_checkpoint s.name && ltb 0 (bytes_of s.output_cipher)

-- a newer revision of the task of a run
unfoldable pub superseded : TaskRun → List TaskRun → Bool
superseded r [] = false
superseded r (n ∷ rs) =
    (not (str_eq r.task_id "")
      && str_eq n.task_id r.task_id
      && str_eq n.task_scope_key r.task_scope_key
      && ltb r.task_revision n.task_revision)
    || superseded r rs

-- the checks of `retryTask`, in their order
unfoldable pub check_retry : SearchDb → TaskRun → Result (Unit {0})
unfolding any_step superseded has_checkpoint
check_retry db r = do
  guard (not (any_step (intent_expired r.id) db.steps))
      (invalid "task intent retention expired; submit a new task")
  guard (not (bytes_of r.input_cipher == 0)) (invalid "task input is no longer available")
  guard (str_eq r.state "failed" || str_eq r.state "cancelled")
      (invalid "only failed or cancelled tasks can be retried")
  guard (not (any_step (is_uncertain r.id) db.steps) || any_step (has_checkpoint r.id) db.steps)
      (invalid "media task outcome is uncertain; automatic retry is blocked")
  guard (not (superseded r db.runs)) (invalid "a newer task revision exists")

abbrev retried_run : Stamp → String → TaskRun → TaskRun
retried_run now id r =
    if str_eq r.id id then record r { state = "queued"; error_code = none; updated_at = now } else r

abbrev is_retried : String → Bool
is_retried status =
    str_eq status "failed"
    || str_eq status "cancelled"
    || str_eq status "running"
    || str_eq status "pending"

retried_step : Stamp → String → Receipt → Receipt
unfolding is_media_checkpoint
retried_step now run s =
    if str_eq s.run_id run && is_retried s.status && not (is_media_checkpoint s.name)
    then record s {
      status = "pending";
      output_cipher = none;
      error_code = "";
      started_at = none;
      finished_at = none;
      updated_at = now;
    }
    else s

-- DELETE FROM agent_deliveries WHERE run_id = ? AND phase = 'terminal' AND status != 'delivered'
drop_deliveries : String → List Delivery → List Delivery
drop_deliveries run [] = []
drop_deliveries run (d ∷ ds) =
    let rest = drop_deliveries run ds in
    if str_eq d.run_id run && str_eq d.phase "terminal" && not (str_eq d.status "delivered")
    then rest
    else d ∷ rest

abbrev pub unsuccessful : String → Query → Bool
unsuccessful run q = str_eq q.run_id run && not (str_eq q.status "succeeded")

-- the statements that change the tables
unfoldable pub retried : Stamp → String → SearchDb → SearchDb
unfolding retried_step drop_deliveries
retried now run db = record db {
  runs = map (retried_run now run) db.runs;
  steps = map (retried_step now run) db.steps;
  deliveries = drop_deliveries run db.deliveries;
  queries = delete_queries (unsuccessful run) db.queries;
}

-- `retryTask`
unfoldable pub retry_task : Stamp → SearchDb → String → Result SearchDb
unfolding check_retry find_run retried
retry_task now db run = do
  guard (not (str_eq (trim_space run) "")) (not_found "task")
  r ← or_fail (find_run (trim_space run) db.runs) (not_found "task")
  check_retry db r
  ok (retried now (trim_space run) db)

-- ===== src/Tasks/Persistent.antt =====
-- `executePersistentOperation` of go/task_graph.go: an operation of the runtime, not of a tool call,
-- with a receipt around it. The operation is a parameter; it answers a result and an error, as in Go.
use erdai_agent.Prelude.{
  ◌==◌, true, not, ◌&&◌, if◌then◌else◌, String, Option, none, some, ◌≡◌, inl, inr, Bool-cases, ap,
  ◌∙◌, if_true, if_false,
}
use erdai_agent.Core.{Error, Result, ok, err, failed, ◌>>◌, guard}
use erdai_agent.Tasks.Store.{
  Receipt, TaskDb, find_step, run_exists, count_step, update_step, ended_row,
}
use erdai_agent.Tasks.Operation.{
  ToolResult, TaskEnv, costly_operation, persistent_operation_id, existing_operation_id,
  begin_persistent_operation, finish_task_step, read_tool_result, uncertain_operation, checkpoints,
  persist_artifacts,
}
use erdai_agent.Tasks.Call.{Around, plain_reply, is_claimed}
use erdai_agent.Tasks.Once.{running_unread, running_uncertain}
use erdai_agent.Tasks.Checks.{both_held, both_failed, test_held}

-- a result with an error, `none` for nil
abbrev pub Answer : Type 0
Answer = ToolResult × Option Error

abbrev pub refused : TaskDb → Error → TaskDb × Answer
refused db x = (db, (plain_reply "", some x))

-- `finishTaskStep` without an output
unfoldable pub fail_step : TaskEnv → TaskDb → String → String → Result TaskDb
fail_step e db id code = do
  guard (count_step id db.steps == 1) (failed "task receipt row is missing")
  ok (record db { steps = update_step id (ended_row e.now "failed" code none) db.steps })

abbrev failed_answer : TaskDb → ToolResult → Error → Result TaskDb → TaskDb × Answer
failed_answer db r x (ok db') = (db', (r, some x))
failed_answer db r x (err y) = refused db x

abbrev stored_answer : TaskDb → String → String → ToolResult → Result TaskDb → TaskDb × Answer
stored_answer db run id r (err x) = refused db x
stored_answer db run id r (ok db') =
    (record db' { artifacts = persist_artifacts run id r.attachments db'.artifacts }, (r, none))

-- what follows the operation
unfoldable pub complete_operation : TaskEnv → String → String → TaskDb × Answer → TaskDb × Answer
unfolding fail_step
complete_operation e run id (db, (r, some x)) =
    failed_answer db r x (fail_step e db id "tool_execution_failed")
complete_operation e run id (db, (r, none)) =
    stored_answer db run id r (finish_task_step e db id "succeeded" "" r)

abbrev begun_operation :
    TaskEnv
    → TaskDb
    → String
    → (TaskDb → TaskDb × Answer)
    → Result (TaskDb × String)
    → TaskDb × Answer
begun_operation e db run operation (err x) = refused db x
begun_operation e db run operation (ok (db', id)) = complete_operation e run id (operation db')

abbrev unless_stopped : TaskDb → Result (Unit {0}) → TaskDb × Answer → TaskDb × Answer
unless_stopped db (err x) go = refused db x
unless_stopped db (ok u) go = go

abbrev from_stored :
    TaskDb → String → String → Result (Option ToolResult) → TaskDb × Answer → TaskDb × Answer
from_stored db run id (err x) go =
    refused db (failed "task execution record could not be persisted or restored")
from_stored db run id (ok (some r)) go =
    (record db { artifacts = persist_artifacts run id r.attachments db.artifacts }, (r, none))
from_stored db run id (ok none) go = go

abbrev pub execution_uncertain : Error
execution_uncertain = failed "task_execution_uncertain"

-- with an encoded input, under the identifier of the receipt
unfoldable pub execute_under :
    TaskEnv
    → TaskDb
    → Around
    → String
    → String
    → String
    → String
    → (TaskDb → TaskDb × Answer)
    → TaskDb × Answer
unfolding complete_operation
execute_under e db around run name encoded id operation =
    let go =
      begun_operation e db run operation (begin_persistent_operation e db run "" name 0 encoded) in
    if costly_operation name && is_claimed id around.claimed
    then refused db execution_uncertain
    else from_stored db run id (read_tool_result e db id)
        (if costly_operation name then unless_stopped db (uncertain_operation db id) go else go)

abbrev pub operation_key : TaskEnv → TaskDb → String → String → String → String
operation_key e db run name encoded =
    existing_operation_id db run name (persistent_operation_id e run name 0 encoded)

abbrev with_encoded :
    TaskEnv
    → TaskDb
    → Around
    → String
    → String
    → (TaskDb → TaskDb × Answer)
    → Option String
    → TaskDb × Answer
with_encoded e db around run name operation none = refused db (failed "json")
with_encoded e db around run name operation (some encoded) =
    execute_under e db around run name encoded (operation_key e db run name encoded) operation

-- `encoded` is what `json.Marshal(input)` gives
unfoldable pub execute_operation :
    TaskEnv
    → TaskDb
    → Around
    → String
    → String
    → Option String
    → (TaskDb → TaskDb × Answer)
    → TaskDb × Answer
unfolding execute_under
execute_operation e db around run name encoded operation =
    if not around.current
    then refused db (failed "task_revision_superseded")
    else if not (run_exists run db.runs)
    then operation db
    else with_encoded e db around run name operation encoded

-- An operation that costs money, of a run that is recorded, whose receipt still runs while the run
-- has no checkpoint, is refused with an error whatever it would do, and nothing changes.
pub execute_operation-running :
    (e : TaskEnv) (db : TaskDb) (around : Around) (run name encoded : String)
    (operation : TaskDb → TaskDb × Answer) (x : Receipt)
    → costly_operation name ≡ true
    → around.current ≡ true
    → run_exists run db.runs ≡ true
    → find_step (operation_key e db run name encoded) db.steps ≡ some x
    → x.status ≡ "running"
    → checkpoints x.run_id db.steps ≡ 0
    → (y : Error) × (execute_operation e db around run name (some encoded) operation ≡ refused db y)
unfolding execute_operation execute_under
execute_operation-running e db around run name encoded operation x c live known f s z =
    let id = operation_key e db run name encoded in
    let go =
      begun_operation e db run operation (begin_persistent_operation e db run "" name 0 encoded) in
    let (y, stop) = running_uncertain db id x f s z in
    let enter =
      if_false _ _ _ (test_held around.current live)
      ∙ if_false _ _ _ (test_held (run_exists run db.runs) known) in
    elim (Bool-cases (is_claimed id around.claimed)) [
      | inl q ↦ (
        execution_uncertain,
        enter
            ∙ if_true _ _ _ (both_held (costly_operation name) (is_claimed id around.claimed) c q),
      )
      | inr q ↦ (
        y,
        enter
            ∙ if_false _ _ _ (both_failed (costly_operation name) (is_claimed id around.claimed) q)
            ∙ ap
                (λ m. from_stored db run id m (
                  if costly_operation name
                  then unless_stopped db (uncertain_operation db id) go
                  else go))
                (running_unread e db id x f s)
            ∙ if_true _ _ _ c
            ∙ ap (λ m. unless_stopped db m go) stop,
      )
    ]

-- ===== src/Tasks/Call.antt =====
-- `executePersistentToolCall` of go/task_graph.go. The tool is a parameter, and so are the two checks
-- of go/task_intent.go that stand before it: whether the task's intent could be stored, and whether
-- the task was superseded.
use erdai_agent.Prelude.{
  ℕ, Bool, false, not, ◌&&◌, ◌||◌, if◌then◌else◌, String, Option, none, some, str_eq, List, [], ◌∷◌,
}
use erdai_agent.Core.{Result, ok, err}
use erdai_agent.Tasks.Store.{TaskDb, run_exists}
use erdai_agent.Tasks.Operation.{
  ToolResult, TaskEnv, costly_operation, persistent_operation_id, existing_operation_id,
  begin_persistent_operation, finish_task_step, read_tool_result, uncertain_operation,
  persist_artifacts,
}

-- `chatToolCall`
pub record ToolCall : Type 0 where
  pub id : String
  pub name : String
  pub arguments : String

-- what the call finds around it: the operations that are claimed in the process (`taskOperations`)
-- and the outcomes of the two checks
pub record Around : Type 0 where
  pub claimed : List String
  pub intent_stored : Bool
  pub current : Bool

abbrev pub plain_reply : String → ToolResult
plain_reply content = record {
  content = content;
  attachments = [];
  user_message = "";
  preserve_user_message = false;
}

abbrev pub persistence_failure : ToolResult
persistence_failure = plain_reply "{\"error\":\"task_persistence_failed\",\"ok\":false}"

abbrev normalized : Option String → String → String
normalized none arguments = arguments
normalized (some json) arguments = json

-- `persistentToolInput`
unfoldable pub tool_input : TaskEnv → ToolCall → List (String × String)
tool_input e call =
    if costly_operation call.name
    then ("name", call.name)
      ∷ ("arguments", normalized (e.normalize_json call.arguments) call.arguments)
      ∷ []
    else ("name", call.name) ∷ ("arguments", call.arguments) ∷ ("callId", call.id) ∷ []

unfoldable pub is_claimed : String → List String → Bool
is_claimed id [] = false
is_claimed id (c ∷ cs) = str_eq c id || is_claimed id cs

-- what stands before the tool: a reply without it, a call that leaves no receipt, or a receipt that
-- runs
pub data Decision : Type 0 where
  replies : ToolResult → Decision
  unrecorded : Decision
  starts : String → Decision

abbrev pub step_of : String → ℕ → ℕ
step_of name step = if costly_operation name then 0 else step

abbrev pub encoded_input : TaskEnv → ToolCall → String
encoded_input e call = e.encode_input (tool_input e call)

-- the identifier under which the receipt is looked up
abbrev pub operation_id : TaskEnv → TaskDb → String → ℕ → ToolCall → String
operation_id e db run step call =
    existing_operation_id db run call.name
      (persistent_operation_id e run call.name (step_of call.name step) (encoded_input e call))

abbrev pub begun : TaskDb → Result (TaskDb × String) → TaskDb × Decision
begun db (ok (db', id)) = (db', starts id)
begun db (err x) = (db, replies persistence_failure)

unfoldable pub start_call : TaskEnv → TaskDb → String → String → ℕ → ToolCall → TaskDb × Decision
start_call e db run parent step call = begun db (
    begin_persistent_operation e db run parent call.name (step_of call.name step)
      (encoded_input e call))

abbrev pub unless_uncertain : TaskDb → Result (Unit {0}) → TaskDb × Decision → TaskDb × Decision
unless_uncertain db (err x) go =
    (db, replies (plain_reply "{\"ok\":false,\"error\":\"task_execution_uncertain\"}"))
unless_uncertain db (ok u) go = go

-- what the stored receipt decides
abbrev pub from_receipt :
    TaskDb → String → String → Result (Option ToolResult) → TaskDb × Decision → TaskDb × Decision
from_receipt db run id (err x) go = (db, replies persistence_failure)
from_receipt db run id (ok (some r)) go =
    (record db { artifacts = persist_artifacts run id r.attachments db.artifacts }, replies r)
from_receipt db run id (ok none) go = go

-- a costly operation is claimed in the process, and stopped by a receipt that is uncertain
unfoldable pub check_receipt :
    TaskEnv → TaskDb → Around → String → String → ℕ → ToolCall → TaskDb × Decision
check_receipt e db around run parent step call =
    let id = operation_id e db run step call in
    let go = start_call e db run parent step call in
    if costly_operation call.name && is_claimed id around.claimed
    then (db, replies (plain_reply "{\"ok\":false,\"error\":\"task_execution_in_progress\"}"))
    else from_receipt db run id (read_tool_result e db id) (
        if costly_operation call.name
        then unless_uncertain db (uncertain_operation db id) go
        else go)

unfoldable pub prepare_call :
    TaskEnv → TaskDb → Around → String → String → ℕ → ToolCall → TaskDb × Decision
prepare_call e db around run parent step call =
    if costly_operation call.name && not around.intent_stored
    then (db, replies persistence_failure)
    else if not around.current
    then (db, replies (plain_reply "{\"ok\":false,\"error\":\"task_revision_superseded\"}"))
    else if not (run_exists run db.runs)
    then (db, unrecorded)
    else check_receipt e db around run parent step call

abbrev status_of : Option String → String
status_of none = "succeeded"
status_of (some code) = "failed"

abbrev code_of : Option String → String
code_of none = ""
code_of (some code) = code

abbrev finished : TaskDb → String → String → ToolResult → Result TaskDb → TaskDb × ToolResult
finished db run id r (err x) = (db, persistence_failure)
finished db run id r (ok db') =
    (record db' { artifacts = persist_artifacts run id r.attachments db'.artifacts }, r)

-- what stands after the tool
unfoldable pub complete_call : TaskEnv → TaskDb → String → String → ToolResult → TaskDb × ToolResult
complete_call e db run id r =
    let f = e.failure r.content in
    finished db run id r (finish_task_step e db id (status_of f) (code_of f) r)

abbrev pub run_decision :
    TaskEnv → String → (TaskDb → TaskDb × ToolResult) → TaskDb × Decision → TaskDb × ToolResult
run_decision e run tool (db, replies r) = (db, r)
run_decision e run tool (db, unrecorded) = tool db
run_decision e run tool (db, starts id) = complete_call e (tool db).0 run id (tool db).1

unfoldable pub execute_tool_call :
    TaskEnv
    → TaskDb
    → Around
    → String
    → String
    → ℕ
    → ToolCall
    → (TaskDb → TaskDb × ToolResult)
    → TaskDb × ToolResult
execute_tool_call e db around run parent step call tool =
    run_decision e run tool (prepare_call e db around run parent step call)

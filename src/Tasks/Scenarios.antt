-- ===== src/Tasks/Scenarios.antt =====
-- Runs of the receipts of go/task_graph.go on concrete tables.
use erdai_agent.Prelude.{true, none, some, ◌≡◌, refl, [], ◌∷◌}
use erdai_agent.Core.{Error}
use erdai_agent.Text.{like_prefix}
use erdai_agent.Tasks.Store.{started_row, Receipt, TaskDb, find_step, put_step, run_exists}
use erdai_agent.Tasks.Operation.{
  TaskEnv, costly_operation, first_of_medium, persistent_operation_id, existing_operation_id,
  begin_costly, begin_persistent_operation, read_tool_result, checkpoints, uncertain_operation,
}
use erdai_agent.Tasks.Call.{
  ToolCall, Around, plain_reply, tool_input, start_call, is_claimed, check_receipt, prepare_call,
}
use erdai_agent.Tasks.Persistent.{refused, execute_operation, execute_operation-running}

abbrev pub world : TaskEnv
world = record {
  now = record { text = "2026-11-26T00:00:00Z"; instant = 1 };
  digest = λ s. "00";
  normalize_json = λ s. none;
  encode_input = λ fields. "{}";
  encode_result = λ r. r.content;
  encrypt = λ s. some s;
  decode_result = λ s. some (plain_reply s);
  failure = λ s. none;
}

abbrev pub one_run : TaskDb
one_run = record { steps = []; artifacts = []; runs = "r1" ∷ [] }

abbrev idle : Around
idle = record { claimed = []; intent_stored = true; current = true }

abbrev draw : ToolCall
draw = record { id = "c1"; name = "generate_image"; arguments = "{}" }

abbrev draw_again : ToolCall
draw_again = record { id = "c2"; name = "grok_generate_image"; arguments = "{\"n\":2}" }

abbrev begun_db : TaskDb
begun_db = (prepare_call world one_run idle "r1" "" 3 draw).0

abbrev running_receipt : Receipt
running_receipt = elim (find_step "r1:media:image" begun_db.steps) [
  | none ↦ started_row world.now "" "" "" 0 "" "" ""
  | some x ↦ x
]

execute_operation-running_example :
    (y : Error) × (execute_operation world begun_db idle "r1" "generate_image"
        (some "{}")
        (λ db. (db, (plain_reply "drawn", none)))
      ≡ refused begun_db y)
unfolding prepare_call run_exists check_receipt is_claimed read_tool_result find_step
    uncertain_operation start_call begin_persistent_operation begin_costly tool_input put_step
    existing_operation_id costly_operation first_of_medium persistent_operation_id checkpoints
    like_prefix
execute_operation-running_example =
    execute_operation-running world begun_db idle "r1" "generate_image" "{}"
      (λ db. (db, (plain_reply "drawn", none))) running_receipt refl refl refl refl refl refl

-- ===== src/Tasks/Store.antt =====
-- The tables `agent_task_steps` and `agent_task_artifacts` of go/task_graph.go, and the operations on
-- a receipt: `finishTaskStep`, the statements of `beginTaskStep` and `beginPersistentOperation`.
use erdai_agent.Prelude.{
  ℕ, suc, Bool, false, ◌||◌, if◌then◌else◌, String, Option, none, some, str_eq, List, [], ◌∷◌,
}
use erdai_agent.Core.{Stamp}

-- a row of `agent_task_steps`; the cipher texts of the input and of the output
pub record Receipt : Type 0 where
  pub id : String
  pub run_id : String
  pub parent_step_id : String
  pub step_index : ℕ
  pub kind : String
  pub name : String
  pub status : String
  pub input_cipher : String
  pub output_cipher : Option String
  pub error_code : String
  pub attempts : ℕ
  pub started_at : Option Stamp
  pub finished_at : Option Stamp
  pub updated_at : Stamp

-- `agentAttachment`
pub record Attachment : Type 0 where
  pub kind : String
  pub local_path : String
  pub name : String
  pub mime_type : String

-- a row of `agent_task_artifacts`
pub record Artifact : Type 0 where
  pub run_id : String
  pub step_id : String
  pub attachment : Attachment

-- the receipts, the artifacts and the identifiers of `agent_runs`
pub record TaskDb : Type 0 where
  pub steps : List Receipt
  pub artifacts : List Artifact
  pub runs : List String

-- SELECT … FROM agent_task_steps WHERE id = ?
unfoldable pub find_step : String → List Receipt → Option Receipt
find_step id [] = none
find_step id (s ∷ ss) = if str_eq s.id id then some s else find_step id ss

-- INSERT … ON CONFLICT(id) DO UPDATE
unfoldable pub put_step : String → Receipt → (Receipt → Receipt) → List Receipt → List Receipt
put_step id fresh f [] = fresh ∷ []
put_step id fresh f (s ∷ ss) =
    let rest = put_step id fresh f ss in if str_eq s.id id then f s ∷ ss else s ∷ rest

-- UPDATE agent_task_steps SET f WHERE id = ?
unfoldable pub update_step : String → (Receipt → Receipt) → List Receipt → List Receipt
update_step id f [] = []
update_step id f (s ∷ ss) = (if str_eq s.id id then f s else s) ∷ update_step id f ss

unfoldable pub count_step : String → List Receipt → ℕ
count_step id [] = 0
count_step id (s ∷ ss) = let rest = count_step id ss in if str_eq s.id id then suc rest else rest

-- `taskGraphRunExists`
unfoldable pub run_exists : String → List String → Bool
run_exists id [] = false
run_exists id (r ∷ rs) = str_eq r id || run_exists id rs

-- the row of the INSERT of a step that starts
abbrev pub started_row : Stamp → String → String → String → ℕ → String → String → String → Receipt
started_row now id run parent step kind name cipher = record {
  id = id;
  run_id = run;
  parent_step_id = parent;
  step_index = step;
  kind = kind;
  name = name;
  status = "running";
  input_cipher = cipher;
  output_cipher = none;
  error_code = "";
  attempts = 1;
  started_at = some now;
  finished_at = none;
  updated_at = now;
}

-- DO UPDATE of `beginTaskStep`
abbrev pub restarted_row : Stamp → Receipt → Receipt
restarted_row now s = record s {
  status = "running";
  attempts = suc s.attempts;
  started_at = some now;
  finished_at = none;
  error_code = "";
  updated_at = now;
}

-- DO UPDATE of `beginPersistentOperation`: the error code and the times stay
abbrev pub resumed_row : Stamp → Receipt → Receipt
resumed_row now s = record s { status = "running"; attempts = suc s.attempts; updated_at = now }

-- the UPDATE of `finishTaskStep`
abbrev pub ended_row : Stamp → String → String → Option String → Receipt → Receipt
ended_row now status code cipher s = record s {
  status = status;
  output_cipher = cipher;
  error_code = code;
  finished_at = some now;
  updated_at = now;
}

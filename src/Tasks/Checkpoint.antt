-- ===== src/Tasks/Checkpoint.antt =====
-- The checkpoints of the calls of a language model: `prepareTaskModelStep` and
-- `finishTaskModelStep` of go/task_model_checkpoint.go. JSON and the cipher are of the environment;
-- the check that the task was not superseded (go/task_intent.go) is an argument.
use erdai_agent.Prelude.{
  ℕ, suc, ◌==◌, Bool, true, false, not, ◌&&◌, ◌||◌, if◌then◌else◌, String, Option, none, some,
  str_eq, List, [], ◌∷◌,
}
use erdai_agent.Core.{Stamp, Error, Result, ok, err, ◌>>=◌, ◌>>◌, guard, or_fail, failed}
use erdai_agent.Tasks.Store.{Receipt, TaskDb, update_step, count_step}
use erdai_agent.Tasks.Operation.{TaskEnv, begin_task_step, finish_encoded}

-- `taskModelInput`
pub record ModelInput : Type 0 where
  pub version : ℕ
  pub contract : String
  pub history : String
  pub request : String

-- `chatCompletion`: the choices decide, the rest is passed on
pub record Completion : Type 0 where
  pub choices : List String
  pub rest : String

-- the fields of `runtimeProviderTarget` that a checkpoint keeps
pub record Target : Type 0 where
  pub endpoint_id : String
  pub model : String
  pub api_base : String

-- `taskModelOutput`
pub record ModelOutput : Type 0 where
  pub version : ℕ
  pub completion : Completion
  pub target : Target

pub record ModelEnv : Type 0 where
  pub task : TaskEnv
  pub encode_input : ModelInput → Option String
  pub decode_input : String → Option ModelInput
  pub encode_output : ModelOutput → String
  pub decode_output : String → Option ModelOutput
  pub decrypt : String → Option String

abbrev pub checkpoint_version : ℕ
checkpoint_version = 1

abbrev pub bad_checkpoint : Error
bad_checkpoint = failed "task model checkpoint is incompatible or unreadable; submit a new task"

abbrev pub is_model_step : String → ℕ → Receipt → Bool
is_model_step run step s = str_eq s.run_id run && str_eq s.kind "model" && s.step_index == step

-- WHERE run_id = ? AND kind = 'model' AND step_index = ?; of `LIMIT 2` the program counts the rows
unfoldable pub model_rows : String → ℕ → List Receipt → List Receipt
model_rows run step [] = []
model_rows run step (s ∷ ss) =
    let rest = model_rows run step ss in if is_model_step run step s then s ∷ rest else rest

abbrev pub same_target : Target → Target → Bool
same_target a b =
    str_eq a.endpoint_id b.endpoint_id && str_eq a.model b.model && str_eq a.api_base b.api_base

-- the index of the first target that the output names
unfoldable pub target_index : Target → ℕ → List Target → Option ℕ
target_index t i [] = none
target_index t i (u ∷ us) =
    let rest = target_index t (suc i) us in if same_target u t then some i else rest

abbrev pub no_choices : List String → Bool
no_choices [] = true
no_choices (c ∷ cs) = false

abbrev pub text_of : Option String → String
text_of none = ""
text_of (some t) = t

abbrev pub input_valid : ModelInput → ModelInput → Bool
input_valid input saved =
    saved.version == checkpoint_version && str_eq saved.contract input.contract

-- the saved input of the row, for the same contract
unfoldable pub saved_input : ModelEnv → ModelInput → Receipt → Result ModelInput
saved_input e input s = do
  plain ← or_fail (e.decrypt s.input_cipher) bad_checkpoint
  saved ← or_fail (e.decode_input plain) bad_checkpoint
  guard (input_valid input saved) bad_checkpoint
  ok saved

abbrev pub output_valid : ModelInput → ModelInput → ModelOutput → Bool
output_valid input saved output =
    output.version == checkpoint_version
    && str_eq saved.history input.history
    && not (no_choices output.completion.choices)

-- the completion of a step that succeeded, with the index of its target
unfoldable pub restored :
    ModelEnv → ModelInput → List Target → ModelInput → Receipt → Result (Completion × ℕ)
unfolding target_index
restored e input targets saved s = do
  plain ← or_fail (e.decrypt (text_of s.output_cipher)) bad_checkpoint
  output ← or_fail (e.decode_output plain) bad_checkpoint
  guard (output_valid input saved output) bad_checkpoint
  index ← or_fail (target_index output.target 0 targets) bad_checkpoint
  ok (output.completion, index)

-- the UPDATE of a step that is tried again
abbrev retried_row : Stamp → String → Receipt → Receipt
retried_row now cipher s = record s {
  status = "running";
  input_cipher = cipher;
  output_cipher = none;
  attempts = suc s.attempts;
  started_at = some now;
  finished_at = none;
  error_code = "";
  updated_at = now;
}

unfoldable pub retry_step : ModelEnv → TaskDb → ModelInput → Receipt → Result (TaskDb × String)
retry_step e db input s = do
  guard (str_eq s.status "pending" || str_eq s.status "failed" || str_eq s.status "running")
      bad_checkpoint
  encoded ← or_fail (e.encode_input input) (failed "json")
  cipher ← or_fail (e.task.encrypt encoded) (failed "encryption")
  guard (count_step s.id db.steps == 1) bad_checkpoint
  ok (record db { steps = update_step s.id (retried_row e.task.now cipher) db.steps }, s.id)

-- the identifier of the step, and what the model answered where it need not be asked
abbrev pub Prepared : Type 0
Prepared = TaskDb × String × Option (Completion × ℕ)

abbrev pub answered : TaskDb → String → Completion × ℕ → Result Prepared
answered db id r = ok (db, id, some r)

abbrev pub begun_step : TaskDb × String → Result Prepared
begun_step p = ok (p.0, p.1, none)

unfoldable pub from_saved :
    ModelEnv → TaskDb → ModelInput → List Target → Receipt → ModelInput → Result Prepared
unfolding restored retry_step
from_saved e db input targets s saved =
    if str_eq s.status "succeeded"
    then (restored e input targets saved s >>= answered db s.id)
    else (retry_step e db input s >>= begun_step)

unfoldable pub from_rows :
    ModelEnv
    → TaskDb
    → String
    → ℕ
    → String
    → ModelInput
    → List Target
    → List Receipt
    → Result Prepared
unfolding from_saved saved_input
from_rows e db run step model input targets [] =
    or_fail (e.encode_input input) (failed "json") >>= λ encoded.
    begin_task_step e.task db run "" "model" model step encoded >>= begun_step
from_rows e db run step model input targets (s ∷ []) =
    saved_input e input s >>= from_saved e db input targets s
from_rows e db run step model input targets (s ∷ s' ∷ ss) = err bad_checkpoint

-- `prepareTaskModelStep`
unfoldable pub prepare_model_step :
    ModelEnv → TaskDb → Bool → String → ℕ → String → ModelInput → List Target → Result Prepared
unfolding from_rows model_rows
prepare_model_step e db current run step model input targets =
    guard current (failed "task_revision_superseded")
    >> from_rows e db run step model input targets (model_rows run step db.steps)

abbrev pub wrapped : Result TaskDb → Result TaskDb
wrapped (ok db) = ok db
wrapped (err x) = err (failed "task execution record could not be persisted or restored")

-- `finishTaskModelStep`
unfoldable pub finish_model_step :
    ModelEnv → TaskDb → Bool → String → Completion → Target → Result TaskDb
finish_model_step e db current id completion target =
    guard current (failed "task_revision_superseded")
    >> wrapped (
        finish_encoded e.task db id "succeeded" "" (
          e.encode_output
            (record { version = checkpoint_version; completion = completion; target = target })))

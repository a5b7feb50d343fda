-- ===== src/Tasks/CheckpointScenarios.antt =====
-- Runs of the checkpoints of go/task_model_checkpoint.go on concrete tables.
use erdai_agent.Prelude.{true, String, none, some, ◌≡◌, refl, sym, [], ◌∷◌}
use erdai_agent.Core.{Result, ok, err}
use erdai_agent.Tasks.Store.{count_step, TaskDb, find_step, put_step}
use erdai_agent.Tasks.Operation.{begin_task_step, task_step_id}
use erdai_agent.Tasks.Checkpoint.{
  ModelInput, Completion, Target, ModelEnv, model_rows, target_index, from_rows, prepare_model_step,
  finish_model_step, Prepared,
}
use erdai_agent.Tasks.Resumed.{Codec, output_of, finish_model_step-prepare}
use erdai_agent.Tasks.Scenarios.{world, one_run}

abbrev question : ModelInput
question = record { version = 1; contract = "c"; history = "h"; request = "{}" }

abbrev asked_again : ModelInput
asked_again = record question { request = "{\"n\":2}" }

abbrev primary : Target
primary = record { endpoint_id = "a"; model = "m"; api_base = "https://a" }

abbrev backup : Target
backup = record { endpoint_id = "b"; model = "m"; api_base = "https://b" }

abbrev reply : Completion
reply = record { choices = "hello" ∷ []; rest = "" }

abbrev models : ModelEnv
models = record {
  task = world;
  encode_input = λ x. some "question";
  decode_input = λ t. some question;
  encode_output = λ x. "answer";
  decode_output = λ t. some (output_of reply backup);
  decrypt = λ c. some c;
}

models_agree : Codec models models question (output_of reply backup)
models_agree = record { opens = λ t c h. sym h; inputs = λ t h. refl; outputs = refl }

abbrev db_of : Result Prepared → TaskDb
db_of (ok (db, id, r)) = db
db_of (err x) = one_run

abbrev id_of : Result Prepared → String
id_of (ok (db, id, r)) = id
id_of (err x) = ""

abbrev done_of : Result TaskDb → TaskDb
done_of (ok db) = db
done_of (err x) = one_run

abbrev first : Result Prepared
first = prepare_model_step models one_run true "r1" 0 "m" question (primary ∷ backup ∷ [])

abbrev begun_db : TaskDb
begun_db = db_of first

abbrev step_id : String
step_id = id_of first

first_eq : first ≡ ok (begun_db, step_id, none)
unfolding prepare_model_step model_rows from_rows begin_task_step
first_eq = refl

abbrev done_db : TaskDb
done_db = done_of (finish_model_step models begun_db true step_id reply backup)

done_eq : finish_model_step models begun_db true step_id reply backup ≡ ok done_db
unfolding finish_model_step count_step prepare_model_step model_rows from_rows begin_task_step
    put_step task_step_id
done_eq = refl

finish_model_step-prepare_example :
    prepare_model_step models done_db true "r1" 0 "other" asked_again (backup ∷ primary ∷ [])
    ≡ ok (done_db, step_id, some (reply, 0))
unfolding target_index model_rows find_step
finish_model_step-prepare_example =
    finish_model_step-prepare models models one_run "r1" 0 "m" "other" question asked_again
      (primary ∷ backup ∷ []) (backup ∷ primary ∷ []) reply backup 0 models_agree refl refl refl
      refl refl refl refl first_eq done_eq

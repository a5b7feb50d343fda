-- ===== src/Tasks/Operation.antt =====
-- The identity of a tool call and its receipt: `persistentOperationID`, `existingCostlyOperationID`,
-- `beginTaskStep`, `beginPersistentOperation`, `finishTaskStep`, `readTaskToolResult`,
-- `uncertainTaskOperation` and `persistTaskArtifacts` of go/task_graph.go.
use Prim.Native.String.{◌++◌ as concat}
use erdai_agent.Prelude.{
  ℕ, zero, suc, ◌%◌, ◌==◌, Bool, true, false, ◌&&◌, ◌||◌, if◌then◌else◌, String, Option, none, some,
  str_eq, List, [], ◌∷◌, ◌++◌,
}
use erdai_agent.Core.{Stamp, Result, ok, err, ◌>>=◌, ◌>>◌, guard, or_fail, failed}
use erdai_agent.Text.{like_prefix}
use erdai_agent.Tasks.Store.{
  Receipt, Attachment, Artifact, TaskDb, find_step, put_step, update_step, count_step, started_row,
  restarted_row, resumed_row, ended_row,
}

-- `toolResult`
pub record ToolResult : Type 0 where
  pub content : String
  pub attachments : List Attachment
  pub user_message : String
  pub preserve_user_message : Bool

-- what a call reads of the world: the clock, six bytes of SHA-256 in hexadecimal, JSON and the cipher.
-- `failure` is the error code of a JSON object whose `ok` is false.
pub record TaskEnv : Type 0 where
  pub now : Stamp
  pub digest : String → String
  pub normalize_json : String → Option String
  pub encode_input : List (String × String) → String
  pub encode_result : ToolResult → String
  pub encrypt : String → Option String
  pub decode_result : String → Option ToolResult
  pub failure : String → Option String

abbrev pub is_video : String → Bool
is_video name = str_eq name "grok_generate_video"

abbrev pub is_image : String → Bool
is_image name = str_eq name "generate_image" || str_eq name "grok_generate_image"

unfoldable pub costly_operation : String → Bool
costly_operation name = is_image name || is_video name

nth_char : ℕ → String → String
nth_char n String.[] = ""
nth_char zero (String.◌∷◌ c s) = String.◌∷◌ c ""
nth_char (suc n) (String.◌∷◌ c s) = nth_char n s

join : List String → String
join [] = ""
join (s ∷ ss) = concat s (join ss)

unfoldable pub task_step_id : TaskEnv → String → String → ℕ → String → String → String
unfolding nth_char join
task_step_id e run kind step name signature = join (
    run
    ∷ ":"
    ∷ kind
    ∷ ":"
    ∷ nth_char (step % 26) "abcdefghijklmnopqrstuvwxyz"
    ∷ ":"
    ∷ e.digest (join (run ∷ "\0" ∷ kind ∷ "\0" ∷ name ∷ "\0" ∷ signature ∷ []))
    ∷ [])

abbrev pub media_id : String → Bool → String
media_id run video = concat run (if video then ":media:video" else ":media:image")

unfoldable pub persistent_operation_id : TaskEnv → String → String → ℕ → String → String
persistent_operation_id e run name step encoded =
    if costly_operation name
    then media_id run (is_video name)
    else task_step_id e run "tool" step name encoded

-- `name` belongs to the same medium
abbrev pub of_medium : Bool → String → Bool
of_medium video name = if video then is_video name else is_image name

-- SELECT id … WHERE run_id = ? AND name … ORDER BY rowid LIMIT 1
unfoldable pub first_of_medium : String → Bool → List Receipt → Option String
first_of_medium run video [] = none
first_of_medium run video (s ∷ ss) =
    if str_eq s.run_id run && of_medium video s.name
    then some s.id
    else first_of_medium run video ss

abbrev pub id_or : Option String → String → String
id_or none d = d
id_or (some id) d = id

unfoldable pub existing_operation_id : TaskDb → String → String → String → String
existing_operation_id db run name fallback =
    if costly_operation name
    then id_or (first_of_medium run (is_video name) db.steps) fallback
    else fallback

unfoldable pub begin_task_step :
    TaskEnv → TaskDb → String → String → String → String → ℕ → String → Result (TaskDb × String)
begin_task_step e db run parent kind name step encoded = do
  let id = task_step_id e run kind step name encoded
  cipher ← or_fail (e.encrypt encoded) (failed "encryption")
  ok (
    record db {
      steps =
          put_step id (started_row e.now id run parent step kind name cipher) (restarted_row e.now)
            db.steps;
    },
    id,
  )

unfoldable pub begin_costly :
    TaskEnv → TaskDb → String → String → String → ℕ → String → Result (TaskDb × String)
begin_costly e db run parent name step encoded = do
  let id = existing_operation_id db run name (persistent_operation_id e run name step encoded)
  cipher ← or_fail (e.encrypt encoded) (failed "encryption")
  ok (
    record db {
      steps =
          put_step id (started_row e.now id run parent step "tool" name cipher) (resumed_row e.now)
            db.steps;
    },
    id,
  )

unfoldable pub begin_persistent_operation :
    TaskEnv → TaskDb → String → String → String → ℕ → String → Result (TaskDb × String)
begin_persistent_operation e db run parent name step encoded =
    if costly_operation name
    then begin_costly e db run parent name step encoded
    else begin_task_step e db run parent "tool" name step encoded

-- `finishTaskStep` with an output that is encoded
abbrev pub finish_encoded : TaskEnv → TaskDb → String → String → String → String → Result TaskDb
finish_encoded e db id status code encoded = do
  cipher ← or_fail (e.encrypt encoded) (failed "encryption")
  guard (count_step id db.steps == 1) (failed "task receipt row is missing")
  ok (record db { steps = update_step id (ended_row e.now status code (some cipher)) db.steps })

unfoldable pub finish_task_step :
    TaskEnv → TaskDb → String → String → String → ToolResult → Result TaskDb
finish_task_step e db id status code output =
    finish_encoded e db id status code (e.encode_result output)

-- the decoding of a receipt's output
abbrev pub read_output : TaskEnv → Option String → Result (Option ToolResult)
read_output e none = err (failed "completed task receipt is empty")
read_output e (some cipher) =
    if str_eq cipher ""
    then err (failed "completed task receipt is empty")
    else (or_fail (e.decode_result cipher) (failed "decoding") >>= λ r. ok (some r))

-- `readTaskToolResult`: the row is looked up by its key, and its status tested
unfoldable pub read_tool_result : TaskEnv → TaskDb → String → Result (Option ToolResult)
read_tool_result e db id = elim (find_step id db.steps) [
  | none ↦ ok none
  | some s ↦ if str_eq s.status "succeeded" then read_output e s.output_cipher else ok none
]

abbrev has_output : Option String → Bool
has_output none = false
has_output (some cipher) = if str_eq cipher "" then false else true

abbrev is_checkpoint : String → Receipt → Bool
is_checkpoint run s =
    str_eq s.run_id run
    && (like_prefix "media_quality:" s.name || like_prefix "media_generation:" s.name)
    && has_output s.output_cipher

-- the count of the checkpoints of a run
unfoldable pub checkpoints : String → List Receipt → ℕ
checkpoints run [] = 0
checkpoints run (s ∷ ss) =
    let rest = checkpoints run ss in if is_checkpoint run s then suc rest else rest

-- whether a receipt stops a new attempt
abbrev pub uncertain_receipt : List Receipt → Receipt → Result (Unit {0})
uncertain_receipt steps s =
    if str_eq s.status "succeeded"
    then err (failed "completed media receipt is unreadable; retry is blocked")
    else if (str_eq s.status "running" || str_eq s.error_code "task_execution_uncertain")
        && checkpoints s.run_id steps == 0
    then err (failed "media task execution is uncertain; automatic retry is blocked")
    else ok tt

unfoldable pub uncertain_operation : TaskDb → String → Result (Unit {0})
uncertain_operation db id = elim (find_step id db.steps) [
  | none ↦ ok tt
  | some s ↦ uncertain_receipt db.steps s
]

-- UNIQUE (step_id, local_path)
unfoldable pub has_artifact : String → String → List Artifact → Bool
has_artifact id path [] = false
has_artifact id path (a ∷ rows) =
    (str_eq a.step_id id && str_eq a.attachment.local_path path) || has_artifact id path rows

-- INSERT OR IGNORE, for each attachment
unfoldable pub persist_artifacts : String → String → List Attachment → List Artifact → List Artifact
persist_artifacts run id [] rows = rows
persist_artifacts run id (a ∷ rest) rows = persist_artifacts run id rest (
    if has_artifact id a.local_path rows
    then rows
    else rows ++ record { run_id = run; step_id = id; attachment = a } ∷ [])

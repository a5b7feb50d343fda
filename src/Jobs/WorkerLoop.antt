-- ===== src/Jobs/WorkerLoop.antt =====
-- One round of the worker: `durableJobRunRecord`, the update of `agent_runs` at the end of
-- `finishDurableJob`, and `runOneDurableJob` of go/durable_jobs.go. The run itself (a call of the
-- language model and its tools) is a parameter; while it lasts the heartbeat ticks.
use erdai_agent.Prelude.{
  ℕ, Bool, false, not, ◌||◌, if◌then◌else◌, String, Option, none, some, str_eq, List, [], ◌∷◌, ◌++◌,
}
use Prim.Native.String.{◌++◌ as text_append}
use erdai_agent.Core.{
  Env, Error, Stamp, now_stamp, Result, ok, err, ◌>>=◌, ◌>>◌, or_fail, guard, invalid, not_found,
  conflict, failed,
}
use erdai_agent.Text.{trim_space}
use erdai_agent.Jobs.Status.{running}
use erdai_agent.Jobs.Store.{Job, Store}
use erdai_agent.Jobs.Worker.{claim_job, set_running, heartbeat}
use erdai_agent.Jobs.Finish.{RunError, uncertain, plain, outcome, finish_job}

-- the row of `agent_runs` that a round inserts, and what is known of a run; the columns that
-- are the same in every such row are left out: a private conversation, never an administrator
pub record RunRecord : Type 0 where
  pub id : String
  pub event_id : String
  pub message_id : String
  pub transport : String
  pub transport_instance : String
  pub conversation_ref : String
  pub sender_ref : String
  pub agent_instance_id : String
  pub memory_namespace : String
  pub persona_id : String
  pub input_cipher : Option String
  pub state : String
  pub error_code : String
  pub created_at : Stamp
  pub updated_at : Stamp

pub record Tables : Type 0 where
  pub store : Store
  pub runs : List RunRecord

-- what the run reads besides the clock: `strconv.Itoa`, the goal that the cipher holds, and whether an
-- error comes from a cancelled or an expired context
pub record Reads : Type 0 where
  pub itoa : ℕ → String
  pub goal : Job → String
  pub is_interrupted : Error → Bool

abbrev or_text : String → String → String
or_text s d = if str_eq s "" then d else s

run_row : Env → Reads → Job → String → String → RunRecord
run_row e r job id cipher = record {
  id = id;
  event_id =
      text_append (text_append (text_append "durable-job:" job.id) ":") (r.itoa job.attempts);
  message_id = job.source_message_id;
  transport = or_text (trim_space job.source_transport) "durable";
  transport_instance = job.bot_id;
  conversation_ref =
      or_text (trim_space job.source_conversation_ref) (text_append "durable:" job.id);
  sender_ref = or_text (trim_space job.owner_id) "durable-worker";
  agent_instance_id = job.bot_id;
  memory_namespace = job.workspace_id;
  persona_id = job.bot_id;
  input_cipher = some cipher;
  state = "running";
  error_code = "";
  created_at = now_stamp e;
  updated_at = now_stamp e;
}

-- the primary key, and the unique event
run_taken : RunRecord → List RunRecord → Bool
run_taken run [] = false
run_taken run (r ∷ rs) = str_eq r.id run.id || str_eq r.event_id run.event_id || run_taken run rs

unfoldable pub run_record : Env → Reads → Job → List RunRecord → Result RunRecord
unfolding run_row run_taken
run_record e r job runs = do
  id ← or_fail e.new_id (failed "random identifier")
  guard e.aead (failed "durable job encryption is unavailable")
  cipher ← or_fail (e.encrypt (r.goal job)) (failed "encryption")
  guard (not (run_taken (run_row e r job id cipher) runs))
      (failed "UNIQUE constraint failed: agent_runs")
  ok (run_row e r job id cipher)

abbrev run_state : Option RunError → String
run_state none = "succeeded"
run_state (some x) = "failed"

-- UPDATE agent_runs SET … WHERE id = ?
unfoldable pub end_run : Env → String → Option RunError → String → List RunRecord → List RunRecord
end_run e id x reason [] = []
end_run e id x reason (r ∷ rs) =
    (if str_eq r.id id
      then record r {
        state = run_state x;
        error_code = trim_space reason;
        input_cipher = none;
        updated_at = now_stamp e;
      }
      else r)
    ∷ end_run e id x reason rs

abbrev pub worker_id : String
worker_id = "durable-worker"

-- the ticks while the run lasts
unfoldable pub heartbeats : List Env → String → Store → Store
heartbeats [] id s = s
heartbeats (e ∷ es) id s = heartbeats es id (heartbeat e s id worker_id)

abbrev message_of : Error → String
message_of (invalid m) = m
message_of (not_found m) = m
message_of (conflict m) = m
message_of (failed m) = m

-- a finish that fails is logged, and its transaction undone
abbrev finished_tables :
    Env → Job → Option String → Option RunError → Tables → Result Store → Tables
finished_tables e job run x t (err m) = t
finished_tables e job none x t (ok s) = record t { store = s }
finished_tables e job (some id) x t (ok s) = record t {
  store = s;
  runs = end_run e id x (outcome e job x).reason t.runs;
}

-- `finishDurableJob` with the row of the run, where there is one
abbrev pub finish_round : Env → Job → Option String → String → Option RunError → Tables → Tables
finish_round e job run reply x t =
    finished_tables e job run x t (finish_job e t.store job worker_id reply x)

-- the run of a job, and its end at a later time
abbrev pub Call : Type 0
Call = RunRecord → String → String × Option RunError

-- `errors.Is` of a cancelled or an expired context, which `finishDurableJob` asks of an error
abbrev run_failure : Reads → Error → RunError
run_failure r m = if r.is_interrupted m then uncertain (message_of m) else plain (message_of m)

abbrev pub with_run : Reads → Call → Env → List Env → Env → Job → Tables → Result RunRecord → Tables
with_run r call e ticks e' job t (err m) = finish_round e job none "" (some (run_failure r m)) t
with_run r call e ticks e' job t (ok run) =
    let answer = call run (r.goal job) in
    finish_round e' job (some run.id) answer.0 answer.1
      (record t { store = heartbeats ticks job.id t.store; runs = t.runs ++ run ∷ [] })

abbrev pub with_start : Reads → Call → Env → List Env → Env → Job → Tables → Result Store → Tables
with_start r call e ticks e' job t (err m) = t
with_start r call e ticks e' job t (ok s) =
    with_run r call e ticks e' (record job { status = running }) (record t { store = s })
      (run_record e r (record job { status = running }) t.runs)

abbrev pub with_claim :
    Reads → Call → Env → List Env → Env → Tables → Result (Store × Option Job) → Tables
with_claim r call e ticks e' t (err m) = t
with_claim r call e ticks e' t (ok (s, none)) = record t { store = s }
with_claim r call e ticks e' t (ok (s, some job)) =
    with_start r call e ticks e' job (record t { store = s }) (set_running e s job.id worker_id)

-- `runOneDurableJob`: claimed and started at one time, with ticks, finished at another
unfoldable pub run_one : Reads → Call → Env → List Env → Env → Tables → Tables
unfolding run_record heartbeats end_run
run_one r call e ticks e' t = with_claim r call e ticks e' t (claim_job e t.store worker_id)

-- one tick of the worker's clock: when it claims, the heartbeats, when it ends
pub record Round : Type 0 where
  pub claimed : Env
  pub ticks : List Env
  pub ended : Env

-- the loop of the worker in `startDurableJobReconciler`
unfoldable pub run_all : Reads → Call → List Round → Tables → Tables
run_all r call [] t = t
run_all r call (x ∷ xs) t = run_all r call xs (run_one r call x.claimed x.ticks x.ended t)

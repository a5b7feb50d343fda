-- ===== src/Tasks/Once.antt =====
-- `executePersistentToolCall` of go/task_graph.go across a crash: a media call that started is not made
-- again.
use erdai_agent.Prelude.{String, none, some, ◌≡◌, refl}
use erdai_agent.Core.{Error, ok, err, failed}
use erdai_agent.Tasks.Store.{Receipt, TaskDb, find_step}
use erdai_agent.Tasks.Operation.{TaskEnv, read_tool_result, checkpoints, uncertain_operation}

pub running_unread :
    (e : TaskEnv) (db : TaskDb) (i : String) (x : Receipt)
    → find_step i db.steps ≡ some x
    → x.status ≡ "running"
    → read_tool_result e db i ≡ ok none
unfolding read_tool_result
running_unread e db i x f s = rw (f, s, read_tool_result) refl

pub running_uncertain :
    (db : TaskDb) (i : String) (x : Receipt)
    → find_step i db.steps ≡ some x
    → x.status ≡ "running"
    → checkpoints x.run_id db.steps ≡ 0
    → (u : Error) × (uncertain_operation db i ≡ err u)
unfolding uncertain_operation
running_uncertain db i x f s z = (
  failed "media task execution is uncertain; automatic retry is blocked",
  rw (f, s, z, uncertain_operation) refl,
)

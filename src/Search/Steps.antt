-- ===== src/Search/Steps.antt =====
-- The histories of the receipts of searches: the operations of go/tool_runtime.go, the retry of
-- go/task_graph.go and the recovery of go/runtime_recovery.go, each at its time, in any order.
use erdai_agent.Prelude.{String, ◌≡◌}
use erdai_agent.Core.{Stamp, Error, ok}
use erdai_agent.Search.Store.{SearchDb}
use erdai_agent.Search.Research.{
  SearchEnv, Findings, begin_search, finish_search_run_success, finish_search_run_failure,
}
use erdai_agent.Search.Recover.{recover_interrupted_runtime, retry_task}

-- the environment at a time
abbrev pub at : SearchEnv → Stamp → SearchEnv
at e t = record e { now = t }

pub data SearchStep (e : SearchEnv) (db : SearchDb) : SearchDb → Type 0 where
  begins : (t : Stamp) (run query : String) → SearchStep e db (begin_search (at e t) db run query).0
  succeeds :
      (t : Stamp) (run query : String) (found : Findings)
      → SearchStep e db (finish_search_run_success (at e t) db run query found).0
  fails :
      (t : Stamp) (run query : String) (x : Error)
      → SearchStep e db (finish_search_run_failure (at e t) db run query x).0
  retries :
      {db' : SearchDb} (t : Stamp) (run : String)
      → retry_task t db run ≡ ok db'
      → SearchStep e db db'
  recovers : (t : Stamp) → SearchStep e db (recover_interrupted_runtime t db)

pub data SearchSteps (e : SearchEnv) (db : SearchDb) : SearchDb → Type 0 where
  stays : SearchSteps e db db
  then_step :
      {db' db'' : SearchDb} → SearchSteps e db db' → SearchStep e db' db'' → SearchSteps e db db''

-- ===== src/Search/Store.antt =====
-- The tables that a search and the recovery touch (go/runtime.go, go/task_graph.go) and their
-- statements: `agent_search_queries`, the older `agent_search_runs`, `agent_runs`,
-- `agent_task_steps` and `agent_deliveries`.
use erdai_agent.Prelude.{
  ℕ, suc, Bool, true, false, ◌&&◌, if◌then◌else◌, String, Option, none, some, str_eq, List, [], ◌∷◌,
}
use erdai_agent.Core.{Stamp}
use erdai_agent.Tasks.Store.{Receipt}

-- a row of `agent_search_queries`, or of `agent_search_runs`
pub record Query : Type 0 where
  pub run_id : String
  pub query_hash : String
  pub status : String
  pub result_cipher : Option String
  pub sources_cipher : Option String
  pub error_message : String
  pub created_at : Stamp
  pub updated_at : Stamp

-- the columns of `agent_runs` that these operations read or change
pub record TaskRun : Type 0 where
  pub id : String
  pub state : String
  pub input_cipher : Option String
  pub error_code : Option String
  pub task_id : String
  pub task_scope_key : String
  pub task_revision : ℕ
  pub updated_at : Stamp

-- the columns of `agent_deliveries` that these operations read
pub record Delivery : Type 0 where
  pub id : String
  pub run_id : String
  pub phase : String
  pub status : String

pub record SearchDb : Type 0 where
  pub legacy : List Query
  pub queries : List Query
  pub runs : List TaskRun
  pub steps : List Receipt
  pub deliveries : List Delivery

-- the primary key of `agent_search_queries`
abbrev pub is_query : String → String → Query → Bool
is_query run hash q = str_eq q.run_id run && str_eq q.query_hash hash

-- SELECT … WHERE run_id = ? AND query_hash = ?
unfoldable pub find_query : String → String → List Query → Option Query
find_query run hash [] = none
find_query run hash (q ∷ qs) =
    let rest = find_query run hash qs in if is_query run hash q then some q else rest

-- SELECT count(*) … WHERE run_id = ?
unfoldable pub count_queries : String → List Query → ℕ
count_queries run [] = 0
count_queries run (q ∷ qs) =
    let rest = count_queries run qs in if str_eq q.run_id run then suc rest else rest

abbrev pub is_running : String → String → Query → Bool
is_running run hash q = is_query run hash q && str_eq q.status "running"

-- UPDATE … WHERE run_id = ? AND query_hash = ? AND status = 'running'
unfoldable pub update_query : String → String → (Query → Query) → List Query → List Query
update_query run hash f [] = []
update_query run hash f (q ∷ qs) =
    (if is_running run hash q then f q else q) ∷ update_query run hash f qs

-- RowsAffected of that statement
unfoldable pub count_running : String → String → List Query → ℕ
count_running run hash [] = 0
count_running run hash (q ∷ qs) =
    let rest = count_running run hash qs in if is_running run hash q then suc rest else rest

-- INSERT OR IGNORE
abbrev pub known : Option Query → Bool
known none = false
known (some q) = true

abbrev pub add_query : Query → List Query → List Query
add_query q qs = if known (find_query q.run_id q.query_hash qs) then qs else q ∷ qs

-- DELETE FROM agent_search_queries WHERE the test
unfoldable pub delete_queries : (Query → Bool) → List Query → List Query
delete_queries drop [] = []
delete_queries drop (q ∷ qs) =
    let rest = delete_queries drop qs in if drop q then rest else q ∷ rest

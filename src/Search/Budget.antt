-- ===== src/Search/Budget.antt =====
-- The budget of searches of a run, `maxSearchQueriesPerRun` of go/tool_runtime.go.
use erdai_agent.Prelude.{
  ◌≤◌, ltb, Bool, true, false, String, List, [], ◌∷◌, ◌≡◌, refl, arith, subst, sym,
}
use erdai_agent.Search.Store.{
  Query, SearchDb, count_queries, find_query, known, add_query, delete_queries,
}
use erdai_agent.Search.Research.{SearchEnv, max_search_queries_per_run, admits, reserved_row}
use erdai_agent.Search.Recover.{move_receipts, still_running, unsuccessful}
use erdai_agent.Search.Steps.{SearchSteps}
use erdai_agent.Search.Rows.{count-update, count-delete, count-new}
use erdai_agent.Search.Kept.{Kept, SearchSteps-Kept}

abbrev Within : List Query → Type 0
Within qs = (run : String) → count_queries run qs ≤ max_search_queries_per_run

-- no older receipts, and no run above its budget
abbrev Budgeted : List Query → List Query → Type 0
Budgeted older qs = (older ≡ []) × Within qs

admitted-Within :
    (x : Query) (qs : List Query)
    → admits x.run_id x.query_hash qs ≡ true
    → Within qs
    → Within (add_query x qs)
admitted-Within x qs a w run =
    let new : known (find_query x.run_id x.query_hash qs) ≡ false = ground arith in
    let room : ltb (count_queries x.run_id qs) max_search_queries_per_run ≡ true = ground arith in
    rw new (count-new run x qs max_search_queries_per_run (w run) room)

deleted-Within :
    (drop : Query → Bool) (qs : List Query) → Within qs → Within (delete_queries drop qs)
deleted-Within drop qs w run = let a = count-delete run drop qs in let b = w run in omega arith

moved-Within : (older qs : List Query) → older ≡ [] → Within qs → Within (move_receipts older qs)
unfolding move_receipts
moved-Within [] qs e w = w
moved-Within (x ∷ older) qs e w = cc

Budgeted-Kept : Kept Budgeted
Budgeted-Kept = record {
  add = λ older qs now run hash a w. (w.0, admitted-Within (reserved_row now run hash) qs a w.1);
  update = λ older qs run hash f k w. (
    w.0,
    λ r. subst (λ n. n ≤ max_search_queries_per_run) (sym (count-update r run hash f k qs)) (w.1 r),
  );
  retry = λ older qs run w. (w.0, deleted-Within (unsuccessful run) qs w.1);
  recover = λ older qs w.
      (refl, deleted-Within still_running (move_receipts older qs) (moved-Within older qs w.0 w.1));
}

-- Whatever history the receipts of searches have, of reservations, ends, retries of tasks and recoveries after
-- a crash, from tables without receipts, no run ever has more of them than its budget of three.
pub SearchSteps-Budgeted :
    {e : SearchEnv} (empty : SearchDb) {db : SearchDb}
    → empty.legacy ≡ []
    → empty.queries ≡ []
    → SearchSteps e empty db
    → (run : String) → count_queries run db.queries ≤ 3
unfolding count_queries
SearchSteps-Budgeted empty older new steps =
    (SearchSteps-Kept Budgeted Budgeted-Kept steps
      (older, λ run. subst (λ qs. count_queries run qs ≤ 3) (sym new) (omega arith))).1

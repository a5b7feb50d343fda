-- ===== src/Search/Kept.antt =====
-- What the statements on the receipts keep, the operations of go/tool_runtime.go, go/task_graph.go and
-- go/runtime_recovery.go keep, and so do their histories.
use erdai_agent.Prelude.{
  true, not, String, List, [], str_eq, ◌≡◌, refl, arith, inl, inr, Bool-cases, subst,
}
use erdai_agent.Core.{Stamp, Error, Result, ok, err, >>=-eq-ok, guard, or_fail, not_found}
use erdai_agent.Text.{trim_space}
use erdai_agent.Search.Store.{Query, SearchDb, update_query, delete_queries, add_query}
use erdai_agent.Search.Research.{
  SearchEnv, Findings, search_query_hash, begin_search, finish_search_run_success, seal,
  finish_search_run_failure, update_receipt, store_sealed, reserved_row, succeeded_row, failed_row,
  admits,
}
use erdai_agent.Search.Recover.{
  recover_interrupted_runtime, retry_task, retried, check_retry, find_run, move_receipts,
  still_running, unsuccessful,
}
use erdai_agent.Search.Steps.{
  at, SearchStep, SearchSteps, begins, succeeds, fails, retries, recovers, stays, then_step,
}
use erdai_agent.Search.Rows.{KeepsKey}

-- the statements keep a property of the older receipts and of the receipts
pub record Kept (P : List Query → List Query → Type 0) : Type 0 where
  pub add :
      (older qs : List Query) (now : Stamp) (run hash : String)
      → admits run hash qs ≡ true
      → P older qs
      → P older (add_query (reserved_row now run hash) qs)
  pub update :
      (older qs : List Query) (run hash : String) (f : Query → Query)
      → KeepsKey f
      → P older qs
      → P older (update_query run hash f qs)
  pub retry :
      (older qs : List Query) (run : String)
      → P older qs
      → P older (delete_queries (unsuccessful run) qs)
  pub recover :
      (older qs : List Query)
      → P older qs
      → P [] (delete_queries still_running (move_receipts older qs))

pub succeeded-KeepsKey :
    (now : Stamp) (result sources : String) → KeepsKey (succeeded_row now result sources)
succeeded-KeepsKey now result sources = record { run = λ q. refl; hash = λ q. refl }

failed-KeepsKey : (now : Stamp) (message : String) → KeepsKey (failed_row now message)
failed-KeepsKey now message = record { run = λ q. refl; hash = λ q. refl }

module _ (P : List Query → List Query → Type 0) (k : Kept P) where
  abbrev In : SearchDb → Type 0
  In db = P db.legacy db.queries

  begin_search-Kept :
      (e : SearchEnv) (db : SearchDb) (run query : String)
      → P db.legacy db.queries
      → P (begin_search e db run query).0.legacy (begin_search e db run query).0.queries
  unfolding begin_search
  begin_search-Kept e db run query h =
      let hash = search_query_hash e query in
      elim (Bool-cases (str_eq (trim_space run) "")) [
        | inl y ↦ rw y h
        | inr n ↦ rw n (elim (Bool-cases (admits run hash db.queries)) [
          | inl a ↦ rw a (k.add db.legacy db.queries e.now run hash a h)
          | inr a ↦ rw a h
        ])
      ]

  update_receipt-Kept :
      (db : SearchDb) (run hash : String) (f : Query → Query)
      → KeepsKey f
      → In db
      → In (update_receipt db run hash f).0
  unfolding update_receipt
  update_receipt-Kept db run hash f kept h = k.update db.legacy db.queries run hash f kept h

  store_sealed-Kept :
      (e : SearchEnv) (db : SearchDb) (run query : String) (r : Result (String × String))
      → In db
      → In (store_sealed e db run query r).0
  store_sealed-Kept e db run query (err x) h = h
  store_sealed-Kept e db run query (ok s) h =
      update_receipt-Kept db run (search_query_hash e query) (succeeded_row e.now s.0 s.1)
        (succeeded-KeepsKey e.now s.0 s.1) h

  success-Kept :
      (e : SearchEnv) (db : SearchDb) (run query : String) (found : Findings)
      → In db
      → In (finish_search_run_success e db run query found).0
  unfolding finish_search_run_success
  success-Kept e db run query found h = elim (Bool-cases (str_eq (trim_space run) "")) [
    | inl y ↦ rw y h
    | inr n ↦ rw n (store_sealed-Kept e db run query (seal e found) h)
  ]

  failure-Kept :
      (e : SearchEnv) (db : SearchDb) (run query : String) (x : Error)
      → In db
      → In (finish_search_run_failure e db run query x).0
  unfolding finish_search_run_failure
  failure-Kept e db run query x h = elim (Bool-cases (str_eq (trim_space run) "")) [
    | inl y ↦ rw y h
    | inr n ↦ rw n (
        update_receipt-Kept db run (search_query_hash e query) (failed_row e.now _)
          (failed-KeepsKey e.now _) h)
  ]

  retry_task-Kept :
      (now : Stamp) (db : SearchDb) (run : String) {db' : SearchDb}
      → retry_task now db run ≡ ok db'
      → In db
      → In db'
  unfolding retry_task retried
  retry_task-Kept now db run {db'} h in_db =
      let (u, p, h1) =
        >>=-eq-ok (guard (not (str_eq (trim_space run) "")) (not_found "task")) _ h in
      let (r, q, h2) =
        >>=-eq-ok (or_fail (find_run (trim_space run) db.runs) (not_found "task")) _ h1 in
      let (v, s, h3) = >>=-eq-ok (check_retry db r) _ h2 in
      let e : retried now (trim_space run) db ≡ db' = ground arith in
      subst In e (k.retry db.legacy db.queries (trim_space run) in_db)

  recover-Kept : (now : Stamp) (db : SearchDb) → In db → In (recover_interrupted_runtime now db)
  unfolding recover_interrupted_runtime
  recover-Kept now db h = k.recover db.legacy db.queries h

  SearchStep-Kept : {e : SearchEnv} {db db' : SearchDb} → SearchStep e db db' → In db → In db'
  SearchStep-Kept {e} {db} (begins t run query) h = begin_search-Kept (at e t) db run query h
  SearchStep-Kept {e} {db} (succeeds t run query found) h =
      success-Kept (at e t) db run query found h
  SearchStep-Kept {e} {db} (fails t run query x) h = failure-Kept (at e t) db run query x h
  SearchStep-Kept {e} {db} (retries t run p) h = retry_task-Kept t db run p h
  SearchStep-Kept {e} {db} (recovers t) h = recover-Kept t db h

  pub SearchSteps-Kept :
      {e : SearchEnv} {db db' : SearchDb}
      → SearchSteps e db db'
      → P db.legacy db.queries
      → P db'.legacy db'.queries
  SearchSteps-Kept stays h = h
  SearchSteps-Kept (then_step steps step) h = SearchStep-Kept step (SearchSteps-Kept steps h)

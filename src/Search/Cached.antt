-- ===== src/Search/Cached.antt =====
-- A search of a run that succeeded is not made again: its receipt outlasts whatever happens to the
-- tables of go/tool_runtime.go, go/task_graph.go and go/runtime_recovery.go.
use Prim.Native.String.{len}
use erdai_agent.Prelude.{
  ◌==◌, true, false, String, some, str_eq, List, ◌≡◌, ◌⊎◌, refl, arith, inl, inr, Bool-cases, subst,
  sym, ap, ◌∙◌, if_false,
}
use erdai_agent.Core.{Stamp, Error, Result, ok, err, >>=-eq-ok, or_fail, or_fail-eq-ok, failed}
use erdai_agent.Text.{trim_space}
use erdai_agent.Search.Store.{Query, SearchDb, find_query, update_query}
use erdai_agent.Search.Research.{
  SearchEnv, Findings, Source, search_query_hash, begin_search, decode_search_cache,
  from_search_receipt, finish_search_run_success, seal, store_sealed, update_receipt, research,
  reserved_row, succeeded_row, admits, handled,
}
use erdai_agent.Search.Recover.{move_receipts, still_running, unsuccessful}
use erdai_agent.Search.Steps.{at, SearchSteps}
use erdai_agent.Search.Rows.{
  find-add, find-move, find-update, find-delete, find-settle, running_succeeded,
}
use erdai_agent.Search.Kept.{Kept, SearchSteps-Kept, succeeded-KeepsKey}

-- what the cipher and JSON are relied on for: both are read back, and a cipher text is not empty
pub record Seals (e : SearchEnv) : Type 0 where
  pub opens : (t c : String) → e.encrypt t ≡ some c → e.decrypt c ≡ some t
  pub filled : (t c : String) → e.encrypt t ≡ some c → (len c == 0) ≡ false
  pub reads :
      (s : List Source) (j : String) → e.encode_sources s ≡ some j → e.decode_sources j ≡ some s

Result-cases {κ} :
    {Value : Type κ} (r : Result Value) → ((x : Error) × (r ≡ err x)) ⊎ ((v : Value) × (r ≡ ok v))
Result-cases (err x) = inl (x, refl)
Result-cases (ok v) = inr (v, refl)

module _ (run hash : String) (q : Query) (done : str_eq q.status "succeeded" ≡ true) where
  abbrev Held : List Query → List Query → Type 0
  Held older qs = find_query run hash qs ≡ some q

  done-still_running : still_running q ≡ false
  done-still_running = elim (Bool-cases (still_running q)) [
    | inl y ↦ let n = running_succeeded q.status y in absurd (ground arith)
    | inr n ↦ n
  ]

  Held-Kept : Kept Held
  Held-Kept = record {
    add = λ older qs now r s a h. find-add run hash (reserved_row now r s) qs h;
    update = λ older qs r s f k h. find-update run hash r s f k qs h done;
    retry = λ older qs r h. find-delete run hash (unsuccessful r) qs h (ground arith);
    recover = λ older qs h.
        find-delete run hash still_running (move_receipts older qs) (find-move run hash older qs h)
          done-still_running;
  }

-- the clock does not matter for the hash, the ciphers and the cache
hash_at :
    (e : SearchEnv) (t : Stamp) (query : String)
    → search_query_hash (at e t) query ≡ search_query_hash e query
unfolding search_query_hash
hash_at e t query = refl

seal_at : (e : SearchEnv) (t : Stamp) (found : Findings) → seal (at e t) found ≡ seal e found
unfolding seal
seal_at e t found = refl

decode_at :
    (e : SearchEnv) (t : Stamp) (q : Query)
    → decode_search_cache (at e t) q ≡ decode_search_cache e q
unfolding decode_search_cache
decode_at e t q = refl

module _ (e : SearchEnv) (seals : Seals e) where
  -- what a receipt holds that a search left
  sealed-decode :
      (found : Findings) (s : String × String) (now : Stamp) (q : Query)
      → seal e found ≡ ok s
      → decode_search_cache e (succeeded_row now s.0 s.1 q) ≡ ok found
  unfolding seal decode_search_cache
  sealed-decode found s now q h =
      let (r, p, h1) = >>=-eq-ok (or_fail (e.encrypt found.0) (failed "encryption")) _ h in
      let (j, p', h2) = >>=-eq-ok (or_fail (e.encode_sources found.1) (failed "json")) _ h1 in
      let (c, p'', h3) = >>=-eq-ok (or_fail (e.encrypt j) (failed "encryption")) _ h2 in
      let er = or_fail-eq-ok (e.encrypt found.0) (failed "encryption") p in
      let ej = or_fail-eq-ok (e.encode_sources found.1) (failed "json") p' in
      let ec = or_fail-eq-ok (e.encrypt j) (failed "encryption") p'' in
      let a : r ≡ s.0 = ground arith in
      let b : c ≡ s.1 = ground arith in
      let er' : e.encrypt found.0 ≡ some s.0 = er ∙ ap some a in
      let ec' : e.encrypt j ≡ some s.1 = ec ∙ ap some b in
      rw
        (
          seals.filled found.0 s.0 er',
          seals.filled j s.1 ec',
          seals.opens found.0 s.0 er',
          seals.opens j s.1 ec',
          seals.reads found.1 j ej,
        )
        refl

  -- the receipt that a search leaves that succeeds
  success-find :
      (t : Stamp) (db : SearchDb) (run query : String) (found : Findings) {db' : SearchDb}
      {q : Query}
      → str_eq (trim_space run) "" ≡ false
      → find_query run (search_query_hash e query) db.queries ≡ some q
      → str_eq q.status "running" ≡ true
      → finish_search_run_success (at e t) db run query found ≡ (db', ok tt)
      → (s : String × String) × (seal e found ≡ ok s)
        × (find_query run (search_query_hash e query) db'.queries
            ≡ some (succeeded_row t s.0 s.1 q))
  unfolding finish_search_run_success update_receipt
  success-find t db run query found {db'} {q} named held running h =
      let h' : store_sealed (at e t) db run query (seal (at e t) found) ≡ (db', ok tt) =
        sym (
          if_false (str_eq (trim_space run) "") (db, ok tt)
            (store_sealed (at e t) db run query (seal (at e t) found)) named)
        ∙ h in
      elim (Result-cases (seal (at e t) found)) [
        | inl (x, p) ↦
            let a : store_sealed (at e t) db run query (err x) ≡ (db', ok tt) =
              subst (λ r. store_sealed (at e t) db run query r ≡ (db', ok tt)) p h' in
            let b : err x ≡ ok tt = ap (λ (v : SearchDb × Result (Unit {0})). v.1) a in absurd cc
        | inr (s, p) ↦
            let a : store_sealed (at e t) db run query (ok s) ≡ (db', ok tt) =
              subst (λ r. store_sealed (at e t) db run query r ≡ (db', ok tt)) p h' in
            let b = ap (λ (v : SearchDb × Result (Unit {0})). v.0.queries) a in
            let k = succeeded-KeepsKey t s.0 s.1 in
            let c =
              find-settle run (search_query_hash e query) (succeeded_row t s.0 s.1) k db.queries
                held running in
            (
              s,
              sym (seal_at e t found) ∙ p,
              ap (find_query run (search_query_hash e query)) (sym b)
                  ∙ subst
                      (λ hash.
                        find_query run (search_query_hash e query)
                          (update_query run hash (succeeded_row t s.0 s.1) db.queries)
                        ≡ some (succeeded_row t s.0 s.1 q))
                      (sym (hash_at e t query)) c,
            )
      ]

  -- a receipt that succeeded answers a search
  receipt-begin :
      (t : Stamp) (db : SearchDb) (run query : String) (found : Findings) {q : Query}
      → str_eq (trim_space run) "" ≡ false
      → find_query run (search_query_hash e query) db.queries ≡ some q
      → str_eq q.status "succeeded" ≡ true
      → decode_search_cache e q ≡ ok found
      → begin_search (at e t) db run query ≡ (db, handled (ok found))
  unfolding begin_search from_search_receipt
  receipt-begin t db run query found {q} named held done cached =
      let held' : find_query run (search_query_hash (at e t) query) db.queries ≡ some q =
        subst (λ hash. find_query run hash db.queries ≡ some q) (sym (hash_at e t query)) held in
      let full : admits run (search_query_hash (at e t) query) db.queries ≡ false =
        rw held' (ground arith) in
      rw (named, full) (rw held' (rw done (ap (λ r. (db, handled r)) (decode_at e t q ∙ cached))))

  -- A search that succeeded for its running receipt is not made again: whatever history the receipts have
  -- after that, of other searches, retries of tasks and recoveries after a crash, the same search
  -- of the same run changes nothing and gives the text and the sources that were found, whatever
  -- another search would come to. It holds for a run with a name, a query with a text, and a cipher and an
  -- encoding of the sources that are read back.
  pub research-once :
      (t t' : Stamp) (db : SearchDb) (run query : String) (found : Findings) {db' db'' : SearchDb}
      {q : Query}
      → str_eq (trim_space run) "" ≡ false
      → str_eq query "" ≡ false
      → find_query run (search_query_hash e (trim_space query)) db.queries ≡ some q
      → str_eq q.status "running" ≡ true
      → finish_search_run_success (at e t) db run (trim_space query) found ≡ (db', ok tt)
      → SearchSteps e db' db''
      → (other : Result Findings) → research (at e t') db'' run query other ≡ (db'', ok found)
  unfolding research
  research-once t t' db run query found {db'} {db''} {q} named asked held running h steps other =
      let hash = search_query_hash e (trim_space query) in
      let (s, p, held') = success-find t db run (trim_space query) found named held running h in
      let q' = succeeded_row t s.0 s.1 q in
      let held'' : find_query run hash db''.queries ≡ some q' =
        SearchSteps-Kept (Held run hash q' refl) (Held-Kept run hash q' refl) steps held' in
      let b =
        receipt-begin t' db'' run (trim_space query) found named held'' refl
          (sealed-decode found s t q p) in
      rw (asked, b) refl

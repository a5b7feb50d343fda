-- ===== src/Search/Research.antt =====
-- `beginSearchRun`, `finishSearchRunSuccess`, `finishSearchRunFailure` and the receipts around a search
-- in `grokResearchForRunWithPrompt` of go/tool_runtime.go. SHA-256, `strings.ToLower`, JSON, the
-- cipher and the slice of the first bytes of a text are of the environment; the search itself is
-- the result that it comes to.
use Prim.Native.String.{len, ◌++◌}
use erdai_agent.Prelude.{
  ℕ, ltb, ◌==◌, Bool, ◌&&◌, ◌||◌, not, if◌then◌else◌, String, Option, none, some, str_eq, List, [],
  ◌∷◌,
}
use erdai_agent.Core.{Stamp, Error, Result, ok, err, guard, or_fail, ◌>>=◌, ◌>>◌, failed}
use erdai_agent.Text.{trim_space}
use erdai_agent.Jobs.Command.{fields}
use erdai_agent.Search.Store.{
  Query, SearchDb, find_query, count_queries, count_running, update_query, add_query, known,
}

-- `searchSource`
pub record Source : Type 0 where
  pub title : String
  pub url : String
  pub snippet : String
  pub content : String
  pub published : String

pub record SearchEnv : Type 0 where
  pub now : Stamp
  pub sha256 : String → String
  pub lower : String → String
  pub first_bytes : ℕ → String → String
  pub encode_sources : List Source → Option String
  pub decode_sources : String → Option (List Source)
  pub encrypt : String → Option String
  pub decrypt : String → Option String

-- `maxSearchQueriesPerRun`
abbrev pub max_search_queries_per_run : ℕ
max_search_queries_per_run = 3

join_more : List String → String
join_more [] = ""
join_more (w ∷ ws) = " " ++ w ++ join_more ws

-- `strings.Join(…, " ")`
join_words : List String → String
unfolding join_more
join_words [] = ""
join_words (w ∷ ws) = w ++ join_more ws

-- `searchQueryHash`
unfoldable pub search_query_hash : SearchEnv → String → String
unfolding join_words fields
search_query_hash e query = e.sha256 (e.lower (join_words (fields query)))

-- what a search gives: the text and its sources
abbrev pub Findings : Type 0
Findings = String × List Source

-- a search that has to be made, or an answer without one
pub data Begun : Type 0 where
  proceed : Begun
  handled : Result Findings → Begun

abbrev pub reserved_row : Stamp → String → String → Query
reserved_row now run hash = record {
  run_id = run;
  query_hash = hash;
  status = "running";
  result_cipher = none;
  sources_cipher = none;
  error_message = "";
  created_at = now;
  updated_at = now;
}

abbrev pub blob : Option String → String
blob none = ""
blob (some b) = b

abbrev pub cache_incomplete : Error
cache_incomplete = failed "cached web search result is incomplete"

-- `decodeSearchCache`
unfoldable pub decode_search_cache : SearchEnv → Query → Result Findings
decode_search_cache e q = do
  guard (not (len (blob q.result_cipher) == 0 || len (blob q.sources_cipher) == 0)) cache_incomplete
  result ← or_fail (e.decrypt (blob q.result_cipher)) (failed "decryption")
  encoded ← or_fail (e.decrypt (blob q.sources_cipher)) (failed "decryption")
  sources ← or_fail (e.decode_sources encoded) (failed "json")
  ok (result, sources)

abbrev failure_of : String → String
failure_of message = if str_eq (trim_space message) "" then "web search failed" else message

-- what a receipt answers that is there already
unfoldable pub from_search_receipt : SearchEnv → Option Query → Result Findings
unfolding decode_search_cache
from_search_receipt e none = err (
    failed
      "search query budget exhausted; summarize available sources or ask the user to narrow the request")
from_search_receipt e (some q) =
    if str_eq q.status "succeeded"
    then decode_search_cache e q
    else if str_eq q.status "failed"
    then err (failed (failure_of q.error_message))
    else err (failed "web search already attempted for this message")

-- whether the INSERT adds a row: the budget is not used up and the query has no receipt
abbrev pub admits : String → String → List Query → Bool
admits run hash qs =
    ltb (count_queries run qs) max_search_queries_per_run && not (known (find_query run hash qs))

-- `beginSearchRun`
unfoldable pub begin_search : SearchEnv → SearchDb → String → String → SearchDb × Begun
unfolding from_search_receipt
begin_search e db run query =
    if str_eq (trim_space run) ""
    then (db, proceed)
    else if admits run (search_query_hash e query) db.queries
    then (
      record db {
        queries = add_query (reserved_row e.now run (search_query_hash e query)) db.queries;
      },
      proceed,
    )
    else (
      db,
      handled (from_search_receipt e (find_query run (search_query_hash e query) db.queries)),
    )

abbrev pub succeeded_row : Stamp → String → String → Query → Query
succeeded_row now result sources q = record q {
  status = "succeeded";
  result_cipher = some result;
  sources_cipher = some sources;
  error_message = "";
  updated_at = now;
}

abbrev pub failed_row : Stamp → String → Query → Query
failed_row now message q = record q { status = "failed"; error_message = message; updated_at = now }

-- the UPDATE and `checkSearchReceiptUpdate`
unfoldable pub update_receipt :
    SearchDb → String → String → (Query → Query) → SearchDb × Result (Unit {0})
update_receipt db run hash f = (
  record db { queries = update_query run hash f db.queries },
  guard (count_running run hash db.queries == 1) (failed "search reservation is no longer running"),
)

-- the ciphers of a text and of its sources
unfoldable pub seal : SearchEnv → Findings → Result (String × String)
seal e found = do
  result ← or_fail (e.encrypt found.0) (failed "encryption")
  encoded ← or_fail (e.encode_sources found.1) (failed "json")
  sources ← or_fail (e.encrypt encoded) (failed "encryption")
  ok (result, sources)

abbrev pub store_sealed :
    SearchEnv → SearchDb → String → String → Result (String × String) → SearchDb × Result (Unit {0})
store_sealed e db run query (err x) = (db, err x)
store_sealed e db run query (ok sealed) =
    update_receipt db run (search_query_hash e query) (succeeded_row e.now sealed.0 sealed.1)

-- `finishSearchRunSuccess`
unfoldable pub finish_search_run_success :
    SearchEnv → SearchDb → String → String → Findings → SearchDb × Result (Unit {0})
unfolding seal update_receipt
finish_search_run_success e db run query found =
    if str_eq (trim_space run) "" then (db, ok tt) else store_sealed e db run query (seal e found)

abbrev error_text : Error → String
error_text (Error.invalid t) = t
error_text (Error.not_found t) = t
error_text (Error.conflict t) = t
error_text (Error.failed t) = t

abbrev limited : SearchEnv → String → String
limited e t = if ltb 500 (len t) then e.first_bytes 500 t else t

-- `finishSearchRunFailure`
unfoldable pub finish_search_run_failure :
    SearchEnv → SearchDb → String → String → Error → SearchDb × Result (Unit {0})
unfolding update_receipt
finish_search_run_failure e db run query x =
    if str_eq (trim_space run) ""
    then (db, ok tt)
    else update_receipt db run (search_query_hash e query)
        (failed_row e.now (limited e (failure_of (error_text x))))

-- `errors.Join`
abbrev joined : Error → Result (Unit {0}) → Error
joined x (ok u) = x
joined x (err y) = failed (error_text x ++ "\n" ++ error_text y)

abbrev persisted : Findings → Result (Unit {0}) → Result Findings
persisted found (ok u) = ok found
persisted found (err y) = err y

abbrev after_search :
    SearchEnv → SearchDb → String → String → Result Findings → SearchDb × Result Findings
unfolding finish_search_run_failure finish_search_run_success
after_search e db run query (err x) =
    let p = finish_search_run_failure e db run query x in (p.0, err (joined x p.1))
after_search e db run query (ok found) =
    let p = finish_search_run_success e db run query found in (p.0, persisted found p.1)

abbrev pub research_after :
    SearchEnv → String → String → Result Findings → SearchDb × Begun → SearchDb × Result Findings
unfolding finish_search_run_failure finish_search_run_success
research_after e run query found (db, proceed) = after_search e db run query found
research_after e run query found (db, handled answer) = (db, answer)

-- the receipts around the search of `grokResearchForRunWithPrompt`, for a search that comes to `found`
unfoldable pub research :
    SearchEnv → SearchDb → String → String → Result Findings → SearchDb × Result Findings
unfolding begin_search finish_search_run_failure finish_search_run_success
research e db run query found =
    if str_eq query ""
    then (db, err (failed "Grok search query is required"))
    else research_after e run (trim_space query) found (begin_search e db run (trim_space query))

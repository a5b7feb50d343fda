-- ===== src/Search/Scenarios.antt =====
-- Runs of the searches of go/tool_runtime.go on concrete tables.
use Prim.Native.String.{len}
use Prim.Native.String.len as string_len
use erdai_agent.Prelude.{
  ◌≤◌, false, String, Option, none, some, str_eq, ◌==◌, subst, ap, ◌≡◌, refl, arith, List, [], ◌∷◌,
}
use erdai_agent.Core.{Stamp, ok, err, failed}
use erdai_agent.Text.{trim_space}
use erdai_agent.Jobs.Command.{fields}
use erdai_agent.Search.Store.{
  Query, TaskRun, SearchDb, find_query, count_queries, count_running, update_query, delete_queries,
}
use erdai_agent.Search.Research.{
  SearchEnv, Findings, Source, search_query_hash, begin_search, seal, update_receipt,
  finish_search_run_success, finish_search_run_failure, from_search_receipt, research, reserved_row,
  succeeded_row, proceed, handled,
}
use erdai_agent.Search.Recover.{
  recover_interrupted_runtime, retry_task, retried, check_retry, find_run, superseded, any_step,
  move_receipts,
}
use erdai_agent.Search.Steps.{at, SearchSteps, stays, then_step, begins, recovers, retries}
use erdai_agent.Search.Cached.{Seals, research-once}
use erdai_agent.Search.Budget.{SearchSteps-Budgeted}
use erdai_agent.Search.Again.{recover-recover}

abbrev noon : Stamp
noon = record { text = "2026-11-26T12:00:00Z"; instant = 12 }

abbrev later : Stamp
later = record { text = "2026-11-26T13:00:00Z"; instant = 13 }

-- a cipher that puts a letter in front of the text, and an encoding of no sources
abbrev open_cipher : String → Option String
open_cipher String.[] = none
open_cipher (String.◌∷◌ c s) = some s

abbrev encode : List Source → Option String
encode [] = some "[]"
encode (s ∷ ss) = none

abbrev world : SearchEnv
world = record {
  now = noon;
  sha256 = λ s. s;
  lower = λ s. s;
  first_bytes = λ n s. s;
  encode_sources = encode;
  decode_sources = λ j. some [];
  encrypt = λ s. some (String.◌∷◌ "x" s);
  decrypt = open_cipher;
}

no_sources : (s : List Source) (j : String) → encode s ≡ some j → some [] ≡ some s
no_sources [] j h = refl
no_sources (s ∷ ss) j h = cc

cipher-open : (t c : String) → some (String.◌∷◌ "x" t) ≡ some c → open_cipher c ≡ some t
cipher-open t c h =
    let e : String.◌∷◌ "x" t ≡ c = ground arith in subst (λ u. open_cipher u ≡ some t) e refl

cipher-len : (t c : String) → some (String.◌∷◌ "x" t) ≡ some c → (len c == 0) ≡ false
cipher-len t c h =
    let e : String.◌∷◌ "x" t ≡ c = ground arith in
    subst (λ u. (len u == 0) ≡ false) e (ground (arith, string_len.cons "x" t))

world-Seals : Seals world
world-Seals = record { opens = cipher-open; filled = cipher-len; reads = no_sources }

abbrev run_row : TaskRun
run_row = record {
  id = "r1";
  state = "failed";
  input_cipher = some "xhello";
  error_code = some "model_failed";
  task_id = "";
  task_scope_key = "";
  task_revision = 1;
  updated_at = noon;
}

abbrev no_receipts : SearchDb
no_receipts = record { legacy = []; queries = []; runs = run_row ∷ []; steps = []; deliveries = [] }

abbrev reserved : Query
reserved = reserved_row noon "r1" "go news"

abbrev begun : SearchDb
begun = record no_receipts { queries = reserved ∷ [] }

abbrev found : Findings
found = ("a text", [])

abbrev stored : SearchDb
stored = record no_receipts { queries = succeeded_row noon "xa text" "x[]" reserved ∷ [] }

abbrev with_other : SearchDb
with_other = (begin_search (at world later) stored "r1" "weather").0

abbrev recovered : SearchDb
recovered = recover_interrupted_runtime later with_other

hash_test : search_query_hash world "go  news" ≡ "go news"
unfolding search_query_hash fields
hash_test = refl

begun_test : begin_search world no_receipts "r1" "go  news" ≡ (begun, proceed)
unfolding begin_search search_query_hash fields trim_space count_queries find_query
begun_test = refl

-- the budget of the run is used up: a fourth query is refused
full_test :
    (begin_search world
      (record no_receipts {
        queries =
            reserved_row noon "r1" "a"
            ∷ reserved_row noon "r1" "b"
            ∷ reserved_row noon "r1" "c"
            ∷ [];
      })
      "r1"
      "d").1
    ≡ handled (
        err (
          failed
            "search query budget exhausted; summarize available sources or ask the user to narrow the request"))
unfolding begin_search search_query_hash fields trim_space count_queries find_query
    from_search_receipt
full_test = refl

-- a blank run has no receipt
blank_test : begin_search world no_receipts " " "go" ≡ (no_receipts, proceed)
unfolding begin_search trim_space
blank_test = refl

failed_test : research world no_receipts "r1" "go" (err (failed " ")) ≡ (
  record no_receipts {
    queries =
        record (reserved_row noon "r1" "go") {
          status = "failed";
          error_message = "web search failed";
        }
        ∷ [];
  },
  err (failed " "),
)
unfolding research begin_search search_query_hash fields trim_space count_queries find_query
    finish_search_run_failure update_receipt update_query count_running
failed_test = refl

receipt_find :
    find_query "r1" (search_query_hash world (trim_space " go news")) begun.queries ≡ some reserved
unfolding find_query search_query_hash fields trim_space
receipt_find = refl

stored_eq :
    finish_search_run_success (at world noon) begun "r1" (trim_space " go news") found
    ≡ (stored, ok tt)
unfolding finish_search_run_success seal update_receipt search_query_hash fields trim_space
    update_query count_running
stored_eq = refl

retry_eq : retry_task later recovered "r1" ≡ ok (retried later "r1" recovered)
unfolding retry_task check_retry find_run any_step superseded trim_space recover_interrupted_runtime
    begin_search search_query_hash fields count_queries find_query
retry_eq = refl

r1_named : trim_space "r1" ≡ "r1"
unfolding trim_space
r1_named = refl

history : SearchSteps world stored (retried later "r1" recovered)
history =
    then_step (then_step (then_step stays (begins later "r1" "weather")) (recovers later))
      (retries later "r1" retry_eq)

research-once_example :
    research (at world later) (retried later "r1" recovered) "r1" " go news" (err (failed "down"))
    ≡ (retried later "r1" recovered, ok found)
research-once_example =
    research-once world world-Seals noon later begun "r1" " go news" found
      (ap (λ t. str_eq t "") r1_named) refl receipt_find refl stored_eq history
      (err (failed "down"))

SearchSteps-Budgeted_example :
    count_queries "r1" (begin_search (at world later) no_receipts "r1" "weather").0.queries ≤ 3
SearchSteps-Budgeted_example =
    SearchSteps-Budgeted {e = world} no_receipts refl refl
      (then_step stays (begins later "r1" "weather")) "r1"

recover-recover_example :
    recover_interrupted_runtime later (recover_interrupted_runtime noon begun)
    ≡ recover_interrupted_runtime noon begun
recover-recover_example = recover-recover noon later begun

-- an interrupted search, with an older receipt, and the run that it was for
recover_test :
    recover_interrupted_runtime later (record no_receipts {
      legacy = reserved_row noon "r2" "old" ∷ [];
      queries = reserved ∷ [];
      runs = record run_row { state = "running" } ∷ [];
    })
    ≡ record no_receipts { runs = record run_row { state = "queued"; updated_at = later } ∷ [] }
unfolding recover_interrupted_runtime move_receipts find_query delete_queries
recover_test = refl

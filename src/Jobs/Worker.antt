-- ===== src/Jobs/Worker.antt =====
-- The worker's side of a lease: `claimDurableJob`, `setDurableJobRunning` and one tick of
-- `heartbeatDurableJob` of go/durable_jobs.go.
use erdai_agent.Prelude.{
  ℕ, suc, ◌+◌, ◌*◌, Bool, true, false, not, ◌&&◌, ◌||◌, if◌then◌else◌, String, Option, none, some,
  str_eq, List, [], ◌∷◌, leb, ◌==◌, ltb_ℤ, text_lt,
}
use erdai_agent.Core.{Env, Stamp, stamp, now_stamp, minute, Result, ok, err, ◌>>=◌, invalid}
use erdai_agent.Jobs.Status.{Status, queued, leased, running, is}
use erdai_agent.Jobs.Store.{
  Job, Store, no_payload, lease_until, update_where, count_where, append_event,
}
use erdai_agent.Jobs.Manage.{with_record}

abbrev pub lease_duration : ℕ
lease_duration = 2 * minute

abbrev pub stamp_or : Option Stamp → Stamp → Stamp
stamp_or none d = d
stamp_or (some t) d = t

-- `next_run_at IS NULL OR julianday(next_run_at) <= julianday(now)`
abbrev pub reached : Option Stamp → ℕ → Bool
reached none now = true
reached (some t) now = leb t.instant now

-- the WHERE of the claim
unfoldable pub claimable : ℕ → Job → Bool
claimable now j = is j.status queued && not j.requires_approval && reached j.next_run_at now

-- one key of an ORDER BY, then the others
abbrev pub lex : Bool → Bool → Bool → Bool
lex before after rest = before || (not after && rest)

-- COALESCE(next_run_at, created_at)
abbrev pub due_text : Job → String
due_text j = (stamp_or j.next_run_at j.created_at).text

-- ORDER BY priority DESC, COALESCE(next_run_at, created_at), created_at: the texts are compared
unfoldable pub precedes : Job → Job → Bool
precedes a b = lex (ltb_ℤ b.priority a.priority) (ltb_ℤ a.priority b.priority) (
    lex (text_lt (due_text a) (due_text b)) (text_lt (due_text b) (due_text a))
      (text_lt a.created_at.text b.created_at.text))

abbrev keep_first : Job → Option Job → Option Job
keep_first j none = some j
keep_first j (some k) = if precedes k j then some k else some j

-- LIMIT 1: of rows that the order does not tell apart, the first
unfoldable pub pick : ℕ → List Job → Option Job
pick now [] = none
pick now (j ∷ js) = let rest = pick now js in if claimable now j then keep_first j rest else rest

abbrev pub with_status : String → Status → Job → Bool
with_status id status j = str_eq j.id id && is j.status status

abbrev same_owner : Option String → String → Bool
same_owner none w = false
same_owner (some v) w = str_eq v w

-- WHERE id = ? AND status = ? AND lease_owner = ?
abbrev pub held_by : String → Status → String → Job → Bool
held_by id status w j = str_eq j.id id && is j.status status && same_owner j.lease_owner w

-- the row that the claim writes
unfoldable pub leased_row : Env → String → Job → Job
leased_row e w j = record j {
  status = leased;
  lease_owner = some w;
  lease_expires_at = some (stamp e (e.now + lease_duration));
  heartbeat_at = some (now_stamp e);
  attempts = suc j.attempts;
  started_at = some (stamp_or j.started_at (now_stamp e));
  updated_at = now_stamp e;
  next_action = "准备执行";
}

abbrev lease_event : Env → String → String → Store → Store
lease_event e id w =
    append_event e id "leased" (some queued) leased "worker claimed job" "准备执行" w
      (lease_until (stamp e (e.now + lease_duration)))

-- `none` for the job: nothing to claim
abbrev claimed_result : Result (Store × Job) → Result (Store × Option Job)
claimed_result r = r >>= λ p. ok (p.0, some p.1)

claim_picked : Env → Store → String → Option Job → Result (Store × Option Job)
unfolding append_event
claim_picked e s w none = ok (s, none)
claim_picked e s w (some j) =
    let test = with_status j.id queued in
    if count_where test s.jobs == 1
    then claimed_result (
        with_record j.id
          (lease_event e j.id w (record s { jobs = update_where test (leased_row e w) s.jobs })))
    else ok (s, none)

unfoldable pub claim_job : Env → Store → String → Result (Store × Option Job)
unfolding claim_picked
claim_job e s w = claim_picked e s w (pick e.now s.jobs)

-- the row that `setDurableJobRunning` writes
unfoldable pub running_row : Env → Job → Job
running_row e j = record j {
  status = running;
  lease_expires_at = some (stamp e (e.now + lease_duration));
  heartbeat_at = some (now_stamp e);
  next_action = "正在执行";
  updated_at = now_stamp e;
}

unfoldable pub set_running : Env → Store → String → String → Result Store
unfolding append_event
set_running e s id w =
    let test = held_by id leased w in
    if count_where test s.jobs == 1
    then ok (
        append_event e id "started" (some leased) running "worker started execution" "正在执行" w
          no_payload (record s { jobs = update_where test (running_row e) s.jobs }))
    else err (invalid "durable job lease is no longer active")

-- the row that a heartbeat writes
unfoldable pub heartbeat_row : Env → Job → Job
heartbeat_row e j = record j {
  heartbeat_at = some (now_stamp e);
  lease_expires_at = some (stamp e (e.now + lease_duration));
  updated_at = now_stamp e;
}

-- one tick; it reports nothing
unfoldable pub heartbeat : Env → Store → String → String → Store
heartbeat e s id w = record s {
  jobs = update_where (held_by id running w) (heartbeat_row e) s.jobs;
}

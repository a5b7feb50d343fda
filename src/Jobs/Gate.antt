-- ===== src/Jobs/Gate.antt =====
-- What holds of each row of `durable_jobs` (go/durable_jobs.go), and that each statement keeps it.
use erdai_agent.Prelude.{
  ℕ, zero, suc, ◌≤◌, ◌<◌, Bool, true, false, ◌||◌, String, Option, none, some, ◌≡◌, arith, ℤ, pos,
  negsuc, Option-cases, inl, inr,
}
use erdai_agent.Core.{Env, Stamp, ok}
use erdai_agent.Jobs.Status.{
  Status, leased, running, waiting_approval, succeeded, cancelled, dead_letter, is,
}
use erdai_agent.Jobs.Store.{Job}
use erdai_agent.Jobs.Goal.{next_run}
use erdai_agent.Jobs.Create.{CreatePayload, Draft, new_job, check_max_attempts, initial_status}
use erdai_agent.Jobs.Manage.{Action, transition_row, goal_row}
use erdai_agent.Jobs.Worker.{leased_row, running_row, heartbeat_row, held_by}
use erdai_agent.Jobs.Finish.{RunError, uncertain, plain, outcome, finished_row}
use erdai_agent.Jobs.Reconcile.{due_row}

abbrev pub is_some {ℓ} : {A : Type ℓ} → Option A → Bool
is_some none = false
is_some (some a) = true

-- a worker holds the job
abbrev pub held : Status → Bool
held s = is s leased || is s running

abbrev ended : Status → Bool
ended s = is s succeeded || is s cancelled || is s dead_letter

pub record RowInv (j : Job) : Type 0 where
  pub gated : held j.status ≡ true → j.requires_approval ≡ false
  pub waits : is j.status waiting_approval ≡ true → j.requires_approval ≡ true
  pub owned : is_some j.lease_owner ≡ held j.status
  pub expiring : is_some j.lease_expires_at ≡ held j.status
  pub tried : held j.status ≡ true → 0 < j.attempts
  pub stamped : ended j.status ≡ true → is_some j.finished_at ≡ true
  pub budget_pos : 0 < j.max_attempts
  pub budget_le : j.max_attempts ≤ 100

pub transition_row-RowInv :
    (e : Env) (a : Action) (j : Job) → RowInv j → RowInv (transition_row e a j)
unfolding transition_row
transition_row-RowInv e a j v = ground arith

pub goal_row-RowInv :
    (e : Env) (goal cipher : String) (j : Job) → RowInv j → RowInv (goal_row e goal cipher j)
unfolding goal_row
goal_row-RowInv e goal cipher j v = ground arith

pub leased_row-RowInv :
    (e : Env) (w : String) (j : Job)
    → j.requires_approval ≡ false
    → RowInv j
    → RowInv (leased_row e w j)
unfolding leased_row
leased_row-RowInv e w j g v = ground arith

pub running_row-RowInv :
    (e : Env) (id w : String) (j : Job)
    → held_by id leased w j ≡ true
    → RowInv j
    → RowInv (running_row e j)
unfolding running_row
running_row-RowInv e id w j h v = ground arith

pub heartbeat_row-RowInv :
    (e : Env) (id w : String) (j : Job)
    → held_by id running w j ≡ true
    → RowInv j
    → RowInv (heartbeat_row e j)
unfolding heartbeat_row
heartbeat_row-RowInv e id w j h v = ground arith

pub finished_row-RowInv :
    (e : Env) (job : Job) (x : Option RunError) (j : Job)
    → RowInv j
    → RowInv (finished_row e job (outcome e job x) j)
unfolding outcome finished_row
finished_row-RowInv e job none j v = elim (Option-cases (next_run e job.plan e.now)) [
  | inl p ↦ rw (p, outcome) (ground arith)
  | inr p ↦ rw (p.1, outcome) (ground arith)
]
finished_row-RowInv e job (some (uncertain m)) j v = ground arith
finished_row-RowInv e job (some (plain m)) j v = ground arith

pub due_row-RowInv : (e : Env) (from : Status) (j : Job) → RowInv j → RowInv (due_row e from j)
unfolding due_row
due_row-RowInv e from j v = ground arith

initial_status-not_held :
    (b : Bool) (start : Option Bool) (next : Option Stamp)
    → held (initial_status b start next) ≡ false
unfolding initial_status
initial_status-not_held b start next = ground arith

pub check_max_attempts_bounds : (n : ℤ) {m : ℕ} → check_max_attempts n ≡ ok m → (0 < m) × (m ≤ 100)
unfolding check_max_attempts
check_max_attempts_bounds (pos zero) h = ground arith
check_max_attempts_bounds (pos (suc n)) h = ground arith
check_max_attempts_bounds (negsuc n) h = cc

-- A job that `createDurableJob` inserts starts well: gated exactly when it waits, held by nobody.
pub new_job-RowInv :
    (e : Env) (input : CreatePayload) (d : Draft) (id cipher : String)
    → 0 < d.max_attempts
    → d.max_attempts ≤ 100
    → RowInv (new_job e input d id cipher)
unfolding new_job initial_status
new_job-RowInv e input d id cipher p q = ground arith

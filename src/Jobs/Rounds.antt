-- ===== src/Jobs/Rounds.antt =====
-- How a round of go/durable_jobs.go ends: the retry budget and the backoff; and a history that leaves a
-- job where nobody meant it to be.
use erdai_agent.Prelude.{
  ℕ, zero, suc, ◌+◌, ◌-◌, ◌*◌, ◌^◌, ◌≤◌, ◌<◌, true, false, String, none, some, ◌≡◌, ◌≢◌, refl,
  arith, inl, inr, ◌⊎◌, Bool-cases, leb, leb→le,
}
use erdai_agent.Core.{Env, stamp, minute, ok}
use erdai_agent.Jobs.Status.{queued, waiting_approval, retrying, dead_letter}
use erdai_agent.Jobs.Store.{Job}
use erdai_agent.Jobs.Manage.{cancel, retry, approve, transition_row, check_transition}
use erdai_agent.Jobs.Worker.{claimable, reached}
use erdai_agent.Jobs.Finish.{plain, outcome, backoff, next_stamp, finished_row, min_int}
use erdai_agent.Jobs.Reconcile.{is_due, due_row}

power_bounds : (n : ℕ) → n < 7 → (1 ≤ 2 ^ n) × (2 ^ n ≤ 64)
power_bounds zero h = omega arith
power_bounds (suc zero) h = omega arith
power_bounds (suc (suc zero)) h = omega arith
power_bounds (suc (suc (suc zero))) h = omega arith
power_bounds (suc (suc (suc (suc zero)))) h = omega arith
power_bounds (suc (suc (suc (suc (suc zero))))) h = omega arith
power_bounds (suc (suc (suc (suc (suc (suc zero)))))) h = omega arith
power_bounds (suc (suc (suc (suc (suc (suc (suc n))))))) h = absurd (omega arith)

min_int-lt : (a : ℕ) → min_int a 6 < 7
min_int-lt a = ground arith

-- The backoff lies between one minute and 64.
pub backoff_bounds : (n : ℕ) → (minute ≤ backoff n) × (backoff n ≤ 64 * minute)
unfolding backoff
backoff_bounds n =
    let (lo, hi) = power_bounds (min_int (n - 1) 6) (min_int-lt (n - 1)) in
    (grind arith, grind arith)

-- A round that fails plainly is retried exactly while attempts are left, after one to 64 minutes
-- from now, and is a dead letter with no next time otherwise.
pub finish_plain :
    (e : Env) (job : Job) (m : String) (j : Job)
    → let j' = finished_row e job (outcome e job (some (plain m))) j in
      ((job.attempts < job.max_attempts)
        × (j'.status ≡ retrying)
        × (t : ℕ) × (j'.next_run_at ≡ some (stamp e t))
        × (e.now + minute ≤ t)
        × (t ≤ e.now + 64 * minute))
      ⊎ ((job.max_attempts ≤ job.attempts) × (j'.status ≡ dead_letter) × (j'.next_run_at ≡ none))
unfolding outcome finished_row next_stamp
finish_plain e job m j = elim (Bool-cases (leb job.max_attempts job.attempts)) [
  | inl y ↦ inr (leb→le _ _ y, rw (y, outcome) refl, rw (y, outcome) refl)
  | inr n ↦
      let (lo, hi) = backoff_bounds job.attempts in
      inl (
        ground arith,
        rw (n, outcome) refl,
        e.now + backoff job.attempts,
        rw (n, outcome) refl,
        omega arith,
        omega arith,
      )
]

-- A job that waits for approval, is cancelled and is then retried is queued by the reconciler with
-- the gate still set: no claim takes it, and no approval is accepted.
pub cancel_retry_stuck :
    (e₁ e₂ e₃ : Env) (j : Job)
    → j.status ≡ waiting_approval
    → j.requires_approval ≡ true
    → reached j.next_run_at e₃.now ≡ true
    → let j₁ = transition_row e₁ cancel j in
      let j₂ = transition_row e₂ retry j₁ in
      let j₃ = due_row e₃ j₂.status j₂ in
      (check_transition cancel j.status ≡ ok tt)
      × (check_transition retry j₁.status ≡ ok tt)
      × (is_due e₃.now j₂ ≡ true)
      × (j₃.status ≡ queued)
      × ((now : ℕ) → claimable now j₃ ≡ false)
      × (check_transition approve j₃.status ≢ ok tt)
unfolding transition_row due_row check_transition is_due claimable
cancel_retry_stuck e₁ e₂ e₃ j h g n =
    (ground arith, refl, ground arith, refl, λ now. ground arith, λ c. cc)

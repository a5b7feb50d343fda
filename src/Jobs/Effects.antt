-- ===== src/Jobs/Effects.antt =====
-- What each successful operation of go/durable_jobs.go leaves in the table of jobs.
use erdai_agent.Prelude.{
  Bool, true, false, String, Option, none, some, ◌≡◌, refl, arith, [], ◌∷◌, ◌++◌, str_eq,
  Option-cases, inl, inr, ◌⊎◌, not,
}
use erdai_agent.Core.{
  Env, ok, >>=-eq-ok, or_fail, or_fail-eq-ok, failed, guard, normalize_core_text,
}
use erdai_agent.Text.{trim_space}
use erdai_agent.Jobs.Status.{queued, leased, running}
use erdai_agent.Jobs.Store.{Job, Store, find_job, update_where, count_where, has_id}
use erdai_agent.Jobs.Create.{
  CreatePayload, Draft, or_default, check_priority, check_max_attempts, check_next_run, create_job,
  create_in, new_job, normalize_payload, insert_job, find_existing,
}
use erdai_agent.Jobs.Manage.{
  Action, transition_row, check_transition, apply_transition, transition_job, goal_row, store_goal,
  update_goal, terminal, parse_action,
}
use erdai_agent.Jobs.Worker.{
  with_status, held_by, pick, leased_row, claim_job, running_row, set_running,
}
use erdai_agent.Jobs.Finish.{RunError, outcome, finished_row, settle, store_reply, finish_job}

pub apply_transition-jobs :
    (e : Env) (s : Store) (id : String) (a : Action) (action actor : String) {t : Store} {k : Job}
    → apply_transition e s id a action actor ≡ ok (t, k)
    → (j : Job) × (find_job id s.jobs ≡ some j)
      × (check_transition a j.status ≡ ok tt)
      × (t.jobs ≡ update_where (has_id id) (transition_row e a) s.jobs)
unfolding apply_transition
apply_transition-jobs e s id a action actor h = elim (Option-cases (find_job id s.jobs)) [
  | inl n ↦ absurd (ground arith)
  | inr (j, f) ↦ (j, f, ground arith, ground arith)
]

pub store_goal-jobs :
    (e : Env) (s : Store) (id goal cipher actor : String) {t : Store} {k : Job}
    → store_goal e s id goal cipher actor ≡ ok (t, k)
    → (j : Job) × (find_job id s.jobs ≡ some j)
      × (terminal j.status ≡ false)
      × (t.jobs ≡ update_where (has_id id) (goal_row e goal cipher) s.jobs)
unfolding store_goal
store_goal-jobs e s id goal cipher actor h = elim (Option-cases (find_job id s.jobs)) [
  | inl n ↦ absurd (ground arith)
  | inr (j, f) ↦ (j, f, ground arith, ground arith)
]

pub claim_job-jobs :
    (e : Env) (s : Store) (w : String) {t : Store} {k : Job}
    → claim_job e s w ≡ ok (t, some k)
    → (j : Job) × (pick e.now s.jobs ≡ some j)
      × (count_where (with_status j.id queued) s.jobs ≡ 1)
      × (t.jobs ≡ update_where (with_status j.id queued) (leased_row e w) s.jobs)
      × (find_job j.id t.jobs ≡ some k)
unfolding claim_job
claim_job-jobs e s w h = elim (Option-cases (pick e.now s.jobs)) [
  | inl n ↦ absurd (ground arith)
  | inr (j, f) ↦ (j, f, ground arith, ground arith, ground arith)
]

pub claim_job-none :
    (e : Env) (s : Store) (w : String) {t : Store} → claim_job e s w ≡ ok (t, none) → t ≡ s
unfolding claim_job
claim_job-none e s w h = ground arith

pub set_running-jobs :
    (e : Env) (s : Store) (id w : String) {t : Store}
    → set_running e s id w ≡ ok t
    → t.jobs ≡ update_where (held_by id leased w) (running_row e) s.jobs
unfolding set_running
set_running-jobs e s id w h = ground arith

pub finish_job-jobs :
    (e : Env) (s : Store) (job : Job) (w reply : String) (x : Option RunError) {t : Store}
    → finish_job e s job w reply x ≡ ok t
    → (t.jobs
        ≡ update_where (held_by job.id running w) (finished_row e job (outcome e job x)) s.jobs)
      × (count_where (held_by job.id running w) s.jobs ≡ 1)
unfolding finish_job settle store_reply
finish_job-jobs e s job w reply x h = ground arith

-- The whole operations, through the checks that stand before the transaction.
pub transition_job-jobs :
    (e : Env) (s : Store) (id action actor : String) {t : Store} {k : Job}
    → transition_job e s id action actor ≡ ok (t, k)
    → (a : Action) × (t.jobs ≡ update_where (has_id id) (transition_row e a) s.jobs)
unfolding transition_job
transition_job-jobs e s id action actor {t} {k} h = elim (Option-cases (parse_action action)) [
  | inl n ↦ absurd (ground arith)
  | inr (a, p) ↦
      let q : apply_transition e s id a action actor ≡ ok (t, k) = ground arith in
      (a, (apply_transition-jobs e s id a action actor q).3)
]

pub update_goal-store :
    (e : Env) (s : Store) (id goal actor : String) {t : Store} {k : Job}
    → update_goal e s id goal actor ≡ ok (t, k)
    → (goal' cipher : String) × (store_goal e s id goal' cipher actor ≡ ok (t, k))
unfolding update_goal
update_goal-store e s id goal actor h =
    let (_, _, h₁) = >>=-eq-ok (guard (not (str_eq (trim_space goal) "")) _) _ h in
    let (goal', _, h₂) = >>=-eq-ok (normalize_core_text (trim_space goal) "goal" 8000 true) _ h₁ in
    let (_, _, h₃) = >>=-eq-ok (guard e.aead _) _ h₂ in
    let (cipher, _, h₄) = >>=-eq-ok (or_fail (e.encrypt goal') _) _ h₃ in (goal', cipher, h₄)

pub create_job-in :
    (e : Env) (s : Store) (input : CreatePayload) {t : Store} {k : Job} {b : Bool}
    → create_job e s input ≡ ok (t, k, b)
    → (d : Draft) × (id cipher : String) × (normalize_payload e input ≡ ok d)
      × (e.new_id ≡ some id)
      × (create_in e s input d id cipher ≡ ok (t, k, b))
unfolding create_job
create_job-in e s input h =
    let (d, p, h₁) = >>=-eq-ok (normalize_payload e input) _ h in
    let (_, _, h₂) = >>=-eq-ok (guard e.aead _) _ h₁ in
    let (cipher, _, h₃) = >>=-eq-ok (or_fail (e.encrypt d.goal) _) _ h₂ in
    let (id, q, h₄) = >>=-eq-ok (or_fail e.new_id (failed "random identifier")) _ h₃ in
    (d, id, cipher, p, or_fail-eq-ok e.new_id _ q, h₄)

pub new_job-key :
    (e : Env) (input : CreatePayload) (d : Draft) (id cipher : String)
    → let j = new_job e input d id cipher in
      (j.id ≡ id)
      × (j.owner_id ≡ d.owner)
      × (j.workspace_id ≡ d.workspace)
      × (j.idempotency_key ≡ input.idempotency_key)
unfolding new_job
new_job-key e input d id cipher = (refl, refl, refl, refl)

-- Either the job was there and nothing changed, or it is new and stands last.
pub create_in-jobs :
    (e : Env) (s : Store) (input : CreatePayload) (d : Draft) (id cipher : String) {t : Store}
    {k : Job} {b : Bool}
    → create_in e s input d id cipher ≡ ok (t, k, b)
    → ((t ≡ s)
        × (j : Job) × (find_existing d.owner d.workspace input.idempotency_key s.jobs ≡ some j)
        × (find_job j.id s.jobs ≡ some k))
      ⊎ ((find_existing d.owner d.workspace input.idempotency_key s.jobs ≡ none)
          × (find_job id s.jobs ≡ none)
          × (t.jobs ≡ s.jobs ++ new_job e input d id cipher ∷ [])
          × (find_job id t.jobs ≡ some k)
          × (b ≡ false))
unfolding create_in insert_job
create_in-jobs e s input d id cipher h =
    elim (Option-cases (find_existing d.owner d.workspace input.idempotency_key s.jobs)) [
      | inr (j, p) ↦ inl (ground arith, j, p, ground arith)
      | inl p ↦ elim (Option-cases (find_job id s.jobs)) [
        | inr q ↦ absurd (ground (arith, (new_job-key e input d id cipher).0))
        | inl q ↦
            let i = (new_job-key e input d id cipher).0 in
            inr (p, q, ground (arith, i), ground (arith, i), ground (arith, i))
      ]
    ]

pub normalize_payload-max :
    (e : Env) (input : CreatePayload) {d : Draft}
    → normalize_payload e input ≡ ok d
    → check_max_attempts input.max_attempts ≡ ok d.max_attempts
unfolding normalize_payload
normalize_payload-max e input h =
    let (goal, _, h₁) = >>=-eq-ok (normalize_core_text _ "goal" 8000 true) _ h in
    let (owner, _, h₂) = >>=-eq-ok (normalize_core_text input.owner_id _ _ _) _ h₁ in
    let (workspace, _, h₃) = >>=-eq-ok (normalize_core_text input.workspace_id _ _ _) _ h₂ in
    let (bot, _, h₄) = >>=-eq-ok (normalize_core_text input.bot_id _ _ _) _ h₃ in
    let (title, _, h₅) = >>=-eq-ok (normalize_core_text input.title _ _ _) _ h₄ in
    let (priority, _, h₆) = >>=-eq-ok (check_priority input.priority) _ h₅ in
    let (n, q, h₇) = >>=-eq-ok (check_max_attempts input.max_attempts) _ h₆ in
    let (next, _, h₈) = >>=-eq-ok (check_next_run e input.next_run_at) _ h₇ in ground arith

-- the owner of a draft is the owner that was asked for, cleaned
pub normalize_payload-owner :
    (e : Env) (input : CreatePayload) {d : Draft}
    → normalize_payload e input ≡ ok d
    → (owner : String) × (normalize_core_text input.owner_id "ownerId" 160 false ≡ ok owner)
      × (d.owner ≡ or_default owner "admin")
unfolding normalize_payload
normalize_payload-owner e input h =
    let (goal, _, h₁) = >>=-eq-ok (normalize_core_text _ "goal" 8000 true) _ h in
    let (owner, p, h₂) = >>=-eq-ok (normalize_core_text input.owner_id _ _ _) _ h₁ in
    let (workspace, _, h₃) = >>=-eq-ok (normalize_core_text input.workspace_id _ _ _) _ h₂ in
    let (bot, _, h₄) = >>=-eq-ok (normalize_core_text input.bot_id _ _ _) _ h₃ in
    let (title, _, h₅) = >>=-eq-ok (normalize_core_text input.title _ _ _) _ h₄ in
    let (priority, _, h₆) = >>=-eq-ok (check_priority input.priority) _ h₅ in
    let (n, q, h₇) = >>=-eq-ok (check_max_attempts input.max_attempts) _ h₆ in
    let (next, _, h₈) = >>=-eq-ok (check_next_run e input.next_run_at) _ h₇ in
    (owner, p, ground arith)

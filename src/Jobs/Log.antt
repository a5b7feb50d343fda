-- ===== src/Jobs/Log.antt =====
-- The log of go/durable_jobs.go: every move that an operation records is one of the table of
-- `durableJobTransitionAllowed`, though only one of them consults it; a new goal alone goes by its
-- own rule.
use Prim.Native.String.{count}
use erdai_agent.Prelude.{
  ℕ, ◌+◌, Bool, true, false, String, Option, none, some, ◌≡◌, refl, arith, List, [], ◌∷◌, ◌++◌, All,
  inl, inr, ◌⊎◌, Bool-cases, Option-cases, subst, sym, str_eq,
}
use erdai_agent.Core.{Env, ok, >>=-eq-ok, stamp}
use erdai_agent.Jobs.Status.{Status, queued, leased, running, transition_allowed}
use erdai_agent.Jobs.Store.{
  Job, Event, Store, event_row, find_job, no_payload, goal_length, lease_until, attempt,
}
use erdai_agent.Jobs.Goal.{needs_approval}
use erdai_agent.Jobs.Create.{CreatePayload, Draft, create_in, insert_job, find_existing, new_job}
use erdai_agent.Jobs.Manage.{
  Action, target, terminal, parse_action, check_transition, apply_transition, transition_job,
  store_goal, goal_target, next_action_of, waiting_claim,
}
use erdai_agent.Jobs.Worker.{claim_job, set_running, heartbeat, pick, lease_duration}
use erdai_agent.Jobs.Finish.{RunError, Outcome, outcome, settle, store_reply, finish_job}
use erdai_agent.Jobs.Reconcile.{
  DueJob, is_due, due_jobs, due_target, due_event, due_reason, due_next_action, reconcile_one,
  reconcile_each, reconcile,
}
use erdai_agent.Jobs.Effects.{create_job-in, update_goal-store, claim_job-none}
use erdai_agent.Jobs.Steps.{
  Step, creates, transitions, revises, claims, starts, beats, finishes, reconciles, Reach, start,
  next,
}

abbrev pub LegalMove : Option Status → Status → String → Type 0
LegalMove none to kind = Unit
LegalMove (some from) to kind =
    (transition_allowed from to ≡ true)
    ⊎ ((str_eq kind "goal_updated" ≡ true) × (terminal from ≡ false))

abbrev pub Legal : Event → Type 0
Legal ev = LegalMove ev.from_status ev.to_status ev.event_type

Legal-snoc : (es : List Event) (ev : Event) → All Legal es → Legal ev → All Legal (es ++ ev ∷ [])
Legal-snoc [] ev h p = (p, tt)
Legal-snoc (x ∷ es) ev h p = (h.0, Legal-snoc es ev h.1 p)

-- an operation that adds one legal event
grown :
    (s t : Store) (ev : Event)
    → t.events ≡ s.events ++ ev ∷ []
    → Legal ev
    → All Legal s.events
    → All Legal t.events
grown s t ev q p h = subst (All Legal) (sym q) (Legal-snoc s.events ev h p)

check_transition-allowed :
    (a : Action) (status : Status)
    → check_transition a status ≡ ok tt
    → transition_allowed status (target a) ≡ true
unfolding check_transition
check_transition-allowed a status h = ground arith

apply_transition-Legal :
    (e : Env) (s : Store) (id : String) (a : Action) (action actor : String) {t : Store} {k : Job}
    → apply_transition e s id a action actor ≡ ok (t, k)
    → All Legal s.events
    → All Legal t.events
unfolding apply_transition
apply_transition-Legal e s id a action actor {t} h v = elim (Option-cases (find_job id s.jobs)) [
  | inl n ↦ absurd (ground arith)
  | inr (j, f) ↦
      let ev =
        event_row e id action (some j.status) (target a) "" (next_action_of (target a)) actor
          no_payload in
      grown s t ev (ground arith) (inl (check_transition-allowed a j.status (ground arith))) v
]

store_goal-Legal :
    (e : Env) (s : Store) (id goal cipher actor : String) {t : Store} {k : Job}
    → store_goal e s id goal cipher actor ≡ ok (t, k)
    → All Legal s.events
    → All Legal t.events
unfolding store_goal
store_goal-Legal e s id goal cipher actor {t} h v = elim (Option-cases (find_job id s.jobs)) [
  | inl n ↦ absurd (ground arith)
  | inr (j, f) ↦
      let ev =
        event_row e id "goal_updated" (some j.status) (goal_target (needs_approval e goal))
          "user changed the goal" waiting_claim actor (goal_length (count goal)) in
      grown s t ev (ground arith) (inr (refl, ground arith)) v
]

insert_job-Legal :
    (e : Env) (j : Job) (n : ℕ) (s : Store) {t : Store}
    → insert_job e j n s ≡ ok t
    → All Legal s.events
    → All Legal t.events
unfolding insert_job
insert_job-Legal e j n s {t} h v =
    let ev = event_row e j.id "created" none j.status "" waiting_claim "admin" (goal_length n) in
    grown s t ev (ground arith) tt v

create_in-Legal :
    (e : Env) (s : Store) (input : CreatePayload) (d : Draft) (id cipher : String) {t : Store}
    {k : Job} {b : Bool}
    → create_in e s input d id cipher ≡ ok (t, k, b)
    → All Legal s.events
    → All Legal t.events
unfolding create_in
create_in-Legal e s input d id cipher {t} h v =
    elim (Option-cases (find_existing d.owner d.workspace input.idempotency_key s.jobs)) [
      | inr (j, p) ↦ let q : t ≡ s = ground arith in subst (λ u. All Legal u.events) (sym q) v
      | inl p ↦
          let (u, f, g) =
            >>=-eq-ok (insert_job e (new_job e input d id cipher) (count d.goal) s) _
              (rw (p, create_in) at h) in
          let q : t ≡ u = ground arith in
          subst (λ u. All Legal u.events) (sym q) (insert_job-Legal e _ (count d.goal) s f v)
    ]

claim_job-Legal :
    (e : Env) (s : Store) (w : String) {t : Store} {k : Option Job}
    → claim_job e s w ≡ ok (t, k)
    → All Legal s.events
    → All Legal t.events
unfolding claim_job transition_allowed
claim_job-Legal e s w {t} {k = none} h v =
    subst (λ u. All Legal u.events) (sym (claim_job-none e s w h)) v
claim_job-Legal e s w {t} {k = some k} h v = elim (Option-cases (pick e.now s.jobs)) [
  | inl n ↦ absurd (ground arith)
  | inr (j, f) ↦
      let ev =
        event_row e j.id "leased" (some queued) leased "worker claimed job" "准备执行" w
          (lease_until (stamp e (e.now + lease_duration))) in
      grown s t ev (ground arith) (inl refl) v
]

set_running-Legal :
    (e : Env) (s : Store) (id w : String) {t : Store}
    → set_running e s id w ≡ ok t
    → All Legal s.events
    → All Legal t.events
unfolding set_running transition_allowed
set_running-Legal e s id w {t} h v =
    let ev =
      event_row e id "started" (some leased) running "worker started execution" "正在执行" w
        no_payload in
    grown s t ev (ground arith) (inl refl) v

outcome-allowed :
    (e : Env) (job : Job) (x : Option RunError)
    → transition_allowed running (outcome e job x).status ≡ true
unfolding outcome transition_allowed
outcome-allowed e job x = ground arith

store_reply-events :
    (e : Env) (job : Job) (x : Option RunError) (reply : String) (s : Store) {t : Store}
    → store_reply e job x reply s ≡ ok t
    → t.events ≡ s.events
unfolding store_reply
store_reply-events e job x reply s h = ground arith

settle-Legal :
    (e : Env) (s : Store) (job : Job) (w : String) (o : Outcome) {t : Store}
    → settle e s job w o ≡ ok t
    → transition_allowed running o.status ≡ true
    → All Legal s.events
    → All Legal t.events
unfolding settle
settle-Legal e s job w o {t} h a v =
    let ev =
      event_row e job.id "finished" (some running) o.status o.reason o.next_action w
        (attempt job.attempts) in
    grown s t ev (ground arith) (inl a) v

finish_job-Legal :
    (e : Env) (s : Store) (job : Job) (w reply : String) (x : Option RunError) {t : Store}
    → finish_job e s job w reply x ≡ ok t
    → All Legal s.events
    → All Legal t.events
unfolding finish_job
finish_job-Legal e s job w reply x {t} h v =
    let (u, f, g) = >>=-eq-ok (store_reply e job x reply s) _ h in
    settle-Legal e u job w (outcome e job x) g (outcome-allowed e job x)
      (subst (All Legal) (sym (store_reply-events e job x reply s f)) v)

-- what the SELECT of the reconciler yields is a status that may go where the loop sends it
abbrev Movable : DueJob → Type 0
Movable d = transition_allowed d.status (due_target d.status) ≡ true

is_due-movable :
    (now : ℕ) (j : Job)
    → is_due now j ≡ true
    → transition_allowed j.status (due_target j.status) ≡ true
unfolding is_due transition_allowed
is_due-movable now j h = ground arith

due_jobs-Movable : (now : ℕ) (js : List Job) → All Movable (due_jobs now js)
unfolding due_jobs
due_jobs-Movable now [] = tt
due_jobs-Movable now (j ∷ js) = elim (Bool-cases (is_due now j)) [
  | inl y ↦ rw (y, due_jobs) (is_due-movable now j y, due_jobs-Movable now js)
  | inr n ↦ rw (n, due_jobs) (due_jobs-Movable now js)
]

reconcile_one-Legal :
    (e : Env) (d : DueJob) (s : Store)
    → Movable d
    → All Legal s.events
    → All Legal (reconcile_one e d s).events
unfolding reconcile_one
reconcile_one-Legal e d s m v =
    let ev =
      event_row e d.id (due_event d.status) (some d.status) (due_target d.status)
        (due_reason d.status) (due_next_action d.status) "reconciler" no_payload in
    grown s (reconcile_one e d s) ev refl (inl m) v

reconcile_each-Legal :
    (e : Env) (ds : List DueJob) (s : Store)
    → All Movable ds
    → All Legal s.events
    → All Legal (reconcile_each e ds s).events
unfolding reconcile_each
reconcile_each-Legal e [] s m v = v
reconcile_each-Legal e (d ∷ ds) s m v =
    reconcile_each-Legal e ds (reconcile_one e d s) m.1 (reconcile_one-Legal e d s m.0 v)

Step-Legal : {s t : Store} → Step s t → All Legal s.events → All Legal t.events
unfolding transition_job heartbeat reconcile
Step-Legal {s} {t} (creates e input k b h) v =
    let (d, id, cipher, _, _, h') = create_job-in e s input h in
    create_in-Legal e s input d id cipher h' v
Step-Legal {s} {t} (transitions e id action actor k h) v =
    elim (Option-cases (parse_action action)) [
      | inl n ↦ absurd (ground arith)
      | inr (a, p) ↦
          let q : apply_transition e s id a action actor ≡ ok (t, k) = ground arith in
          apply_transition-Legal e s id a action actor q v
    ]
Step-Legal {s} {t} (revises e id goal actor k h) v =
    let (goal', cipher, h') = update_goal-store e s id goal actor h in
    store_goal-Legal e s id goal' cipher actor h' v
Step-Legal (claims e w k h) v = claim_job-Legal e _ w h v
Step-Legal (starts e id w h) v = set_running-Legal e _ id w h v
Step-Legal {s} {t} (beats e id w h) v = subst (λ u. All Legal u.events) (sym h) v
Step-Legal (finishes e job w reply x h) v = finish_job-Legal e _ job w reply x h v
Step-Legal {s} {t} (reconciles e h) v =
    subst (λ u. All Legal u.events) (sym h)
      (reconcile_each-Legal e (due_jobs e.now s.jobs) s (due_jobs-Movable e.now s.jobs) v)

-- In every history each move that the log records is allowed by the table of
-- `durableJobTransitionAllowed`, those of the worker and of the reconciler too, which do not consult
-- it; the one exception is a new goal, and that leaves no job that succeeded, was cancelled or is a
-- dead letter.
pub Reach-Legal : {s : Store} → Reach s → All Legal s.events
Reach-Legal start = tt
Reach-Legal (next r st) = Step-Legal st (Reach-Legal r)

-- ===== src/Jobs/Owned.antt =====
-- Who may do what by a chat command of go/durable_jobs.go.
use erdai_agent.Prelude.{
  Bool, true, false, not, ◌&&◌, if◌then◌else◌, String, some, str_eq, List, [], ◌∷◌, ◌++◌, map, ◌≡◌,
  ◌⊎◌, refl, inl, inr, arith, Bool-cases, sym, subst, ap, ◌∙◌, if_true, if_false,
}
use text.Mathlib.TextPositions.{eq_refl}
use erdai_agent.Core.{
  normalize_core_text, Env, ok, >>=-eq-ok, or_fail-eq-ok, guard-eq-ok, or_fail, guard, not_found,
}
use erdai_agent.Text.{trim_space}
use erdai_agent.Jobs.Store.{Job, Store, no_payload, find_job, update_where, has_id, append_event}
use erdai_agent.Jobs.Status.{queued, waiting_approval}
use erdai_agent.Jobs.Create.{CreatePayload, or_default, create_job, new_job}
use erdai_agent.Jobs.Manage.{
  Action, approve, next_action_of, parse_action, check_transition, apply_transition, transition_row,
  goal_row, transition_job, update_goal,
}
use erdai_agent.Jobs.Effects.{
  transition_job-jobs, update_goal-store, store_goal-jobs, create_job-in, create_in-jobs,
  new_job-key, normalize_payload-owner,
}
use erdai_agent.Jobs.Rows.{find-mem}
use erdai_agent.Jobs.Identity.{Distinct, key_of}
use erdai_agent.Jobs.Only.{Only, Only-find, Only-update, Distinct-Only, others_kept}
use erdai_agent.Jobs.Command.{
  JobCommand, Caller, created_answer, operated_text, operated_answer, operate, operate_own,
  direct_command, command_payload,
}

-- the jobs of everyone else
unfoldable pub others : String → List Job → List Job
others actor [] = []
others actor (j ∷ js) =
    let rest = others actor js in if str_eq j.owner_id actor then rest else j ∷ rest

others-append :
    (actor : String) (js ks : List Job)
    → others actor (js ++ ks) ≡ others actor js ++ others actor ks
unfolding others
others-append actor [] ks = refl
others-append actor (j ∷ js) ks = elim (Bool-cases (str_eq j.owner_id actor)) [
  | inl y ↦ rw (y, others-append actor js ks) refl
  | inr n ↦ rw (n, others-append actor js ks) refl
]

others-update :
    (actor id : String) (f : Job → Job) (j : Job) (js : List Job)
    → str_eq j.owner_id actor ≡ true
    → ((k : Job) → (f k).owner_id ≡ k.owner_id)
    → Only id j js
    → others actor (update_where (has_id id) f js) ≡ others actor js
unfolding others update_where
others-update actor id f j [] o same h = absurd h
others-update actor id f j (k ∷ js) o same (inl h) =
    let q : str_eq k.owner_id actor ≡ true = ap (λ i. str_eq i.owner_id actor) h.1 ∙ o in
    let q' : str_eq (f k).owner_id actor ≡ true = ap (λ i. str_eq i actor) (same k) ∙ q in
    rw (h.0, q, q', others_kept id (has_id id) (λ i y. y) f js h.2) refl
others-update actor id f j (k ∷ js) o same (inr h) =
    rw (h.0, others-update actor id f j js o same h.1) refl

transition_row-owner :
    (e : Env) (a : Action) (j : Job) → (transition_row e a j).owner_id ≡ j.owner_id
unfolding transition_row
transition_row-owner e a j = refl

goal_row-owner :
    (e : Env) (goal cipher : String) (j : Job) → (goal_row e goal cipher j).owner_id ≡ j.owner_id
unfolding goal_row
goal_row-owner e goal cipher j = refl

operate-others :
    (e : Env) (s : Store) (command : JobCommand) (actor : String) (j : Job) {t : Store} {k : Job}
    → str_eq j.owner_id actor ≡ true
    → Only j.id j s.jobs
    → operate e s j.id command actor ≡ ok (t, k)
    → others actor t.jobs ≡ others actor s.jobs
unfolding operate
operate-others e s command actor j {t} {k} o only h =
    elim (Bool-cases (str_eq command.action "update")) [
      | inl y ↦
          let h' : update_goal e s j.id command.goal actor ≡ ok (t, k) =
            sym (if_true _ _ _ y) ∙ h in
          let (goal, cipher, g) = update_goal-store e s j.id command.goal actor h' in
          let (_, _, _, q) = store_goal-jobs e s j.id goal cipher actor g in
          ap (others actor) q
          ∙ others-update actor j.id (goal_row e goal cipher) j s.jobs o
              (goal_row-owner e goal cipher) only
      | inr n ↦
          let h' : transition_job e s j.id command.action actor ≡ ok (t, k) =
            sym (if_false _ _ _ n) ∙ h in
          let (a, q) = transition_job-jobs e s j.id command.action actor h' in
          ap (others actor) q
          ∙ others-update actor j.id (transition_row e a) j s.jobs o (transition_row-owner e a) only
    ]

owner_checked :
    (admin same : Bool) → admin ≡ false → not (not admin && not same) ≡ true → same ≡ true
owner_checked admin same a h = ground arith

operate_own-others :
    (e : Env) (s : Store) (run : Caller) (command : JobCommand) {t : Store} {k : Job}
    → run.is_admin ≡ false
    → Distinct (map key_of s.jobs)
    → operate_own e s run command ≡ ok (t, k)
    → others (trim_space run.sender_ref) t.jobs ≡ others (trim_space run.sender_ref) s.jobs
unfolding operate_own
operate_own-others e s run command a d h =
    let (j, p, h₁) =
      >>=-eq-ok (or_fail (find_job command.id s.jobs) (not_found "durable job")) _ h in
    let (_, g, h₂) = >>=-eq-ok (guard _ _) _ h₁ in
    let f = or_fail-eq-ok (find_job command.id s.jobs) _ p in
    let own = owner_checked run.is_admin _ a (guard-eq-ok _ _ g) in
    operate-others e s command (trim_space run.sender_ref) j own
      (Distinct-Only j s.jobs (find-mem command.id s.jobs f) d) h₂

-- the row of a member's new job: its owner is the member's cleaned name
abbrev pub OwnRow : String → Job → Type 0
OwnRow actor k =
    (owner : String) × (normalize_core_text actor "ownerId" 160 false ≡ ok owner)
    × (k.owner_id ≡ or_default owner "admin")

create_job-others :
    (e : Env) (s : Store) (input : CreatePayload) (actor : String) {t : Store} {k : Job} {b : Bool}
    → create_job e s input ≡ ok (t, k, b)
    → (others actor t.jobs ≡ others actor s.jobs)
      ⊎ ((j : Job) × OwnRow input.owner_id j
          × (others actor t.jobs ≡ others actor s.jobs ++ others actor (j ∷ [])))
create_job-others e s input actor {t} h =
    let (d, id, cipher, n, _, h') = create_job-in e s input h in
    let j = new_job e input d id cipher in
    elim (create_in-jobs e s input d id cipher h') [
      | inl (q, _, _, _) ↦ inl (ap (λ u. others actor u.jobs) q)
      | inr (_, _, q, _, _) ↦
          let (owner, p, o) = normalize_payload-owner e input n in
          inr (
            j,
            (owner, p, (new_job-key e input d id cipher).1 ∙ o),
            ap (others actor) q ∙ others-append actor s.jobs (j ∷ []),
          )
    ]

-- A member who is no administrator touches nobody else's jobs by a chat command: where a command
-- succeeds, the jobs of all other owners stand as they stood, in their order. One row at most is
-- new, by a command that creates; its owner is the member's own name as the program cleans it, and
-- where that is not the member's name as it came, the row follows the others. The keys of the table
-- have to be distinct.
pub direct_command-others :
    (e : Env) (s : Store) (run : Caller) (command : JobCommand) {t : Store} {answer : String}
    → run.is_admin ≡ false
    → Distinct (map key_of s.jobs)
    → direct_command e s run command ≡ ok (t, answer)
    → let actor = trim_space run.sender_ref in
      (others actor t.jobs ≡ others actor s.jobs)
      ⊎ ((str_eq command.action "create" ≡ true)
          × (k : Job) × OwnRow actor k
          × (others actor t.jobs ≡ others actor s.jobs ++ others actor (k ∷ [])))
unfolding direct_command command_payload
direct_command-others e s run command {t} {answer} a d h =
    let actor = trim_space run.sender_ref in
    let (_, _, h₁) = >>=-eq-ok (guard (not (str_eq actor "")) _) _ h in
    elim (Bool-cases (str_eq command.action "create")) [
      | inl y ↦
          let h₂ = sym (if_true _ _ _ y) ∙ h₁ in
          let ((t', k, b), p, q) =
            >>=-eq-ok (create_job e s (command_payload e run (trim_space command.goal)))
              created_answer h₂ in
          let same : t' ≡ t = ground arith in
          elim (create_job-others e s (command_payload e run (trim_space command.goal)) actor p) [
            | inl r ↦ inl (subst (λ (u : Store). others actor u.jobs ≡ others actor s.jobs) same r)
            | inr (j, own, r) ↦ inr (
              y,
              j,
              own,
              subst
                  (λ (u : Store).
                    others actor u.jobs ≡ others actor s.jobs ++ others actor (j ∷ []))
                  same r,
            )
          ]
      | inr n ↦
          let h₂ = sym (if_false _ _ _ n) ∙ h₁ in
          let ((t', k), p, q) =
            >>=-eq-ok (operate_own e s run command) (operated_answer command.action) h₂ in
          let r = operate_own-others e s run command a d p in
          let same : t' ≡ t = ground arith in
          inl (subst (λ (u : Store). others actor u.jobs ≡ others actor s.jobs) same r)
    ]

abbrev pub approval_of : String → JobCommand
approval_of id = record { action = "approve"; id = id; goal = "" }

transition_row-id : (e : Env) (a : Action) (j : Job) → (transition_row e a j).id ≡ j.id
unfolding transition_row
transition_row-id e a j = refl

approve_waiting :
    (e : Env) (s : Store) (actor : String) (j : Job)
    → Only j.id j s.jobs
    → j.status ≡ waiting_approval
    → (t : Store) × (transition_job e s j.id "approve" actor ≡ ok (t, transition_row e approve j))
      × (find_job j.id t.jobs ≡ some (transition_row e approve j))
unfolding transition_job apply_transition check_transition parse_action append_event transition_row
approve_waiting e s actor j only w =
    let f = Only-find j.id j s.jobs only in
    let i : str_eq (transition_row e approve j).id j.id ≡ true =
      ap (λ x. str_eq x j.id) (transition_row-id e approve j) ∙ eq_refl j.id in
    let only' =
      Only-update j.id (has_id j.id) (λ k y. y) (transition_row e approve) j s.jobs (eq_refl j.id) i
        only in
    let f' = Only-find j.id (transition_row e approve j) _ only' in
    (
      append_event e j.id "approve" (some waiting_approval) queued "" (next_action_of queued) actor
          no_payload
          (record s { jobs = update_where (has_id j.id) (transition_row e approve) s.jobs }),
      rw (f, w, f') refl,
      f',
    )

-- An owner approves his own gated job by a chat command, as a member who is no administrator too:
-- the job that waits for approval is queued, and its gate is open.
pub owner_approves :
    (e : Env) (s : Store) (run : Caller) (j : Job)
    → str_eq (trim_space run.sender_ref) "" ≡ false
    → j.owner_id ≡ trim_space run.sender_ref
    → find_job j.id s.jobs ≡ some j
    → Distinct (map key_of s.jobs)
    → j.status ≡ waiting_approval
    → (t : Store) × (answer : String) × (direct_command e s run (approval_of j.id) ≡ ok (t, answer))
      × (k : Job) × (find_job j.id t.jobs ≡ some k)
      × (k.status ≡ queued)
      × (k.requires_approval ≡ false)
unfolding direct_command operate_own operate transition_row
owner_approves e s run j named own f d w =
    let only = Distinct-Only j s.jobs (find-mem j.id s.jobs f) d in
    let (t, p, found) = approve_waiting e s (trim_space run.sender_ref) j only w in
    let o : str_eq j.owner_id (trim_space run.sender_ref) ≡ true =
      ap (λ x. str_eq x (trim_space run.sender_ref)) own ∙ eq_refl (trim_space run.sender_ref) in
    let open_gate : not (not run.is_admin && not (str_eq j.owner_id (trim_space run.sender_ref)))
        ≡ true =
      rw o (gate run.is_admin) in
    (
      t,
      operated_text "approve" (transition_row e approve j),
      rw (named, f, open_gate, p) refl,
      transition_row e approve j,
      found,
      refl,
      refl,
    )
  where
    gate : (b : Bool) → not (not b && false) ≡ true
    gate true = refl
    gate false = refl

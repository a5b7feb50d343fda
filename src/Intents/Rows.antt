-- ===== src/Intents/Rows.antt =====
-- What the statements of go/task_intent.go do to the rows of `agent_runs`: which row an identifier finds,
-- and how the revisions of a task compare.
use erdai_agent.Prelude.{
  ℕ, ◌≤◌, ◌<◌, true, false, ◌&&◌, String, some, str_eq, List, [], ◌∷◌, map, ◌≡◌, refl, arith, inl,
  inr, Bool-cases, subst, sym, ap, ◌∙◌, All,
}
use erdai_agent.Intents.Store.{IntentRun, OutboxRow, find_intent_run, of_task, newer_revision}
use erdai_agent.Core.{Stamp}
use erdai_agent.Intents.Changes.{max_revision, is_other_run, cancelled_delivery, is_open}

pub find-map :
    (id : String) (f : IntentRun → IntentRun)
    → ((r : IntentRun) → (f r).id ≡ r.id)
    → (rs : List IntentRun) {r : IntentRun} → find_intent_run id rs ≡ some r
    → find_intent_run id (map f rs) ≡ some (f r)
unfolding find_intent_run
find-map id f k [] h = cc
find-map id f k (x ∷ rs) {r} h = elim (Bool-cases (str_eq x.id id)) [
  | inl y ↦
      let e : x ≡ r = ground arith in
      let y' : str_eq (f x).id id ≡ true = ap (λ t. str_eq t id) (k x) ∙ y in
      rw y' (ap (λ v. some (f v)) e)
  | inr n ↦
      let n' : str_eq (f x).id id ≡ false = ap (λ t. str_eq t id) (k x) ∙ n in
      let rest : find_intent_run id rs ≡ some r = ground arith in rw n' (find-map id f k rs rest)
]

pub find-id :
    (id : String) (rs : List IntentRun) {r : IntentRun}
    → find_intent_run id rs ≡ some r
    → str_eq r.id id ≡ true
unfolding find_intent_run
find-id id [] h = cc
find-id id (x ∷ rs) {r} h = elim (Bool-cases (str_eq x.id id)) [
  | inl y ↦ let e : x ≡ r = ground arith in ap (λ (v : IntentRun). str_eq v.id id) (sym e) ∙ y
  | inr n ↦ let rest : find_intent_run id rs ≡ some r = ground arith in find-id id rs rest
]

-- no revision of a task is above the maximum
pub revision-max :
    (id task scope : String) (rs : List IntentRun) {r : IntentRun}
    → find_intent_run id rs ≡ some r
    → of_task task scope r ≡ true
    → r.task_revision ≤ max_revision task scope rs
unfolding find_intent_run max_revision
revision-max id task scope [] h y = cc
revision-max id task scope (x ∷ rs) {r} h t = elim (Bool-cases (str_eq x.id id)) [
  | inl y ↦
      let e : x ≡ r = ground arith in
      let t' : of_task task scope x ≡ true = ap (of_task task scope) e ∙ t in
      subst (λ (v : IntentRun). v.task_revision ≤ max_revision task scope (x ∷ rs)) e (ground arith)
  | inr n ↦
      let rest : find_intent_run id rs ≡ some r = ground arith in
      let b = revision-max id task scope rs rest t in ground arith
]

-- a row of the task with a higher revision supersedes
pub find-newer :
    (id task scope : String) (revision : ℕ) (rs : List IntentRun) {r : IntentRun}
    → find_intent_run id rs ≡ some r
    → of_task task scope r ≡ true
    → revision < r.task_revision
    → newer_revision task scope revision rs ≡ true
unfolding find_intent_run newer_revision
find-newer id task scope revision [] h t b = cc
find-newer id task scope revision (x ∷ rs) {r} h t b = elim (Bool-cases (str_eq x.id id)) [
  | inl y ↦
      let e : x ≡ r = ground arith in
      let t' : of_task task scope x ≡ true = ap (of_task task scope) e ∙ t in
      let b' : revision < x.task_revision =
        subst (λ (v : IntentRun). revision < v.task_revision) (sym e) b in
      ground arith
  | inr n ↦
      let rest : find_intent_run id rs ≡ some r = ground arith in
      let ih = find-newer id task scope revision rs rest t b in ground arith
]

pub find-other :
    (id task scope run : String) (rs : List IntentRun) {r : IntentRun}
    → find_intent_run id rs ≡ some r
    → of_task task scope r ≡ true
    → str_eq r.id run ≡ false
    → is_other_run task scope run id rs ≡ true
unfolding find_intent_run is_other_run
find-other id task scope run [] h t o = cc
find-other id task scope run (x ∷ rs) {r} h t o = elim (Bool-cases (str_eq x.id id)) [
  | inl y ↦
      let e : x ≡ r = ground arith in
      let t' : of_task task scope x ≡ true = ap (of_task task scope) e ∙ t in
      let o' : str_eq x.id run ≡ false = ap (λ (v : IntentRun). str_eq v.id run) e ∙ o in
      ground arith
  | inr n ↦
      let rest : find_intent_run id rs ≡ some r = ground arith in
      let ih = find-other id task scope run rs rest t o in ground arith
]

-- after the UPDATE of the deliveries, none of another run of the task is open
pub closed-deliveries :
    (now : Stamp) (task scope run id : String) (rs : List IntentRun) (ds : List OutboxRow)
    → is_other_run task scope run id rs ≡ true
    → All
        (λ (d : OutboxRow). d.run_id ≡ id → is_open d ≡ false)
        (map (cancelled_delivery now task scope run rs) ds)
unfolding cancelled_delivery
closed-deliveries now task scope run id rs [] o = tt
closed-deliveries now task scope run id rs (d ∷ ds) o = (
  elim (Bool-cases (is_open d && is_other_run task scope run d.run_id rs)) [
    | inl y ↦ rw y (λ q. refl)
    | inr n ↦ rw n (λ q.
        let o' : is_other_run task scope run d.run_id rs ≡ true =
          ap (λ t. is_other_run task scope run t rs) q ∙ o in
        ground arith)
  ],
  closed-deliveries now task scope run id rs ds o,
)

-- ===== src/Intents/Kept.antt =====
-- The run that is admitted by go/task_intent.go is current after its admission.
use erdai_agent.Prelude.{
  ◌<◌, false, String, str_eq, List, [], ◌∷◌, map, ◌≡◌, refl, arith, inl, inr, Bool-cases,
}
use erdai_agent.Intents.Store.{
  TaskIntent, IntentRun, IntentStep, RunHead, of_task, newer_revision, retired_intent,
}
use erdai_agent.Core.{Stamp}
use erdai_agent.Intents.Changes.{max_revision, cancelled_run, admitted_run, put_intent}

-- no row of the task is above a revision that is above the maximum, the admitted row too
pub none-newer :
    (now : Stamp) (i : TaskIntent) (run : RunHead) (rs : List IntentRun)
    → max_revision i.task_id run.scope_key rs < i.revision
    → newer_revision i.task_id run.scope_key i.revision
        (map (admitted_run i run) (map (cancelled_run now i.task_id run.scope_key run.id) rs))
      ≡ false
unfolding newer_revision max_revision
none-newer now i run [] h = refl
none-newer now i run (r ∷ rs) h =
    let c = cancelled_run now i.task_id run.scope_key run.id r in
    let rest : max_revision i.task_id run.scope_key rs < i.revision = ground arith in
    let ih = none-newer now i run rs rest in
    let same : of_task i.task_id run.scope_key c ≡ of_task i.task_id run.scope_key r =
      ground arith in
    let rev : c.task_revision ≡ r.task_revision = ground arith in
    elim (Bool-cases (str_eq c.id run.id)) [
      | inl y ↦ rw y (ground arith)
      | inr n ↦ rw n (rw (same, rev) (ground arith))
    ]

-- an intent that is stored is not retired by that
pub retired-put :
    (id : String) (fresh : IntentStep) (ss : List IntentStep)
    → str_eq fresh.error_code "task_intent_expired" ≡ false
    → retired_intent id ss ≡ false
    → retired_intent id (put_intent fresh ss) ≡ false
unfolding retired_intent put_intent
retired-put id fresh [] h k = ground arith
retired-put id fresh (s ∷ ss) h k = elim (Bool-cases (str_eq s.id fresh.id)) [
  | inl y ↦ rw y k
  | inr n ↦
      let rest : retired_intent id ss ≡ false = ground arith in
      let ih = retired-put id fresh ss h rest in rw n (ground arith)
]

-- ===== src/Intents/Superseded.antt =====
-- An admission in go/task_intent.go that makes another revision of a task leaves none of its older runs
-- current.
use erdai_agent.Prelude.{
  ◌<◌, Bool, true, false, String, some, str_eq, map, ◌≡◌, refl, arith, inl, inr, Bool-cases, subst,
  sym, ap, ◌∙◌, All, eq_iff,
}
use erdai_agent.Core.{Stamp, ok, err, now_stamp}
use erdai_agent.Text.{trim_space}
use text.Mathlib.TextPositions.{eq_refl}
use erdai_agent.Intents.Prior.{is_passive}
use erdai_agent.Intents.Changes.{is_open, cancelled_run, admitted_run, max_revision}
use erdai_agent.Intents.Store.{
  TaskIntent, IntentRun, OutboxRow, IntentDb, RunHead, IntentEnv, find_intent_run, of_task,
  newer_revision, check_current, task_superseded, retired_intent, intent_id, ensure_task_current,
}
use erdai_agent.Intents.Admit.{admit_task_intent}
use erdai_agent.Intents.Kept.{none-newer}
use erdai_agent.Intents.Rows.{
  find-map, find-id, revision-max, find-newer, find-other, closed-deliveries,
}
use erdai_agent.Intents.Revised.{Revised, admit-Revised}

cancelled-of_task :
    (now : Stamp) (t scope run task key : String) (r : IntentRun)
    → of_task task key (cancelled_run now t scope run r) ≡ of_task task key r
cancelled-of_task now t scope run task key r = ground arith

cancelled-id :
    (now : Stamp) (t scope run : String) (r : IntentRun)
    → (cancelled_run now t scope run r).id ≡ r.id
cancelled-id now t scope run r = ground arith

cancelled-revision :
    (now : Stamp) (t scope run : String) (r : IntentRun)
    → (cancelled_run now t scope run r).task_revision ≡ r.task_revision
cancelled-revision now t scope run r = ground arith

admitted-id : (i : TaskIntent) (run : RunHead) (r : IntentRun) → (admitted_run i run r).id ≡ r.id
admitted-id i run r = ground arith

admitted-of_task :
    (i : TaskIntent) (run : RunHead) (r : IntentRun)
    → str_eq r.id run.id ≡ true
    → of_task i.task_id run.scope_key (admitted_run i run r) ≡ true
admitted-of_task i run r y = rw y (ground (arith, eq_refl i.task_id, eq_refl run.scope_key))

module _ (now : Stamp) (run : RunHead) (db db' : IntentDb) (intent : TaskIntent)
    (v : Revised now run db db' intent) where
  -- the row that an identifier finds after the admission
  find-revised :
      (id : String) {r : IntentRun}
      → find_intent_run id db.runs ≡ some r
      → find_intent_run id db'.runs
        ≡ some (admitted_run intent run (cancelled_run now intent.task_id run.scope_key run.id r))
  find-revised id {r} h =
      let cancel = cancelled_run now intent.task_id run.scope_key run.id in
      let one : find_intent_run id v.after ≡ some (cancel r) =
        ap (find_intent_run id) v.cancels
        ∙ find-map id cancel (cancelled-id now intent.task_id run.scope_key run.id) db.runs h in
      ap (find_intent_run id) v.runs
      ∙ find-map id (admitted_run intent run) (admitted-id intent run) v.after one

  -- the admitted row is a newer revision than any other
  newer-revised :
      (id : String) {r0 r : IntentRun}
      → find_intent_run run.id db.runs ≡ some r0
      → find_intent_run id db.runs ≡ some r
      → of_task intent.task_id run.scope_key r ≡ true
      → newer_revision intent.task_id run.scope_key r.task_revision db'.runs ≡ true
  newer-revised id {r0} {r} h0 h t =
      let cancel = cancelled_run now intent.task_id run.scope_key run.id in
      let y : str_eq (cancel r0).id run.id ≡ true =
        ap (λ t. str_eq t run.id) (cancelled-id now intent.task_id run.scope_key run.id r0)
        ∙ find-id run.id db.runs h0 in
      let b = revision-max id intent.task_id run.scope_key db.runs h t in
      let c : (admitted_run intent run (cancel r0)).task_revision ≡ intent.revision = rw y refl in
      let d = v.revision in
      find-newer run.id intent.task_id run.scope_key r.task_revision db'.runs
        (find-revised run.id h0) (admitted-of_task intent run (cancel r0) y) (omega arith)

  current-revised :
      (id : String) {r0 r : IntentRun}
      → find_intent_run run.id db.runs ≡ some r0
      → find_intent_run id db.runs ≡ some r
      → of_task intent.task_id run.scope_key r ≡ true
      → str_eq r.id run.id ≡ false
      → str_eq (trim_space id) "" ≡ false
      → ensure_task_current db' id ≡ err task_superseded
  unfolding ensure_task_current check_current
  current-revised id {r0} {r} h0 h t other blank =
      let cancel = cancelled_run now intent.task_id run.scope_key run.id in
      let o : str_eq (cancel r).id run.id ≡ false =
        ap (λ t. str_eq t run.id) (cancelled-id now intent.task_id run.scope_key run.id r)
        ∙ other in
      let same : admitted_run intent run (cancel r) ≡ cancel r = rw o refl in
      let found : find_intent_run id db'.runs ≡ some (cancel r) =
        find-revised id h ∙ ap some same in
      let t' : of_task intent.task_id run.scope_key (cancel r) ≡ true =
        cancelled-of_task now intent.task_id run.scope_key run.id intent.task_id run.scope_key r
        ∙ t in
      let et : (cancel r).task_id ≡ intent.task_id =
        (eq_iff (cancel r).task_id intent.task_id).0 (ground arith) in
      let es : (cancel r).task_scope_key ≡ run.scope_key =
        (eq_iff (cancel r).task_scope_key run.scope_key).0 (ground arith) in
      let n = newer-revised id h0 h t in
      let newer : newer_revision (cancel r).task_id (cancel r).task_scope_key
            (cancel r).task_revision db'.runs
          ≡ true =
        rw (et, es, cancelled-revision now intent.task_id run.scope_key run.id r) n in
      rw blank (rw found (ground arith))

  deliveries-revised :
      (id : String) {r : IntentRun}
      → find_intent_run id db.runs ≡ some r
      → of_task intent.task_id run.scope_key r ≡ true
      → str_eq r.id run.id ≡ false
      → All (λ (d : OutboxRow). d.run_id ≡ id → is_open d ≡ false) db'.outbox
  deliveries-revised id {r} h t other =
      let cancel = cancelled_run now intent.task_id run.scope_key run.id in
      let one : find_intent_run id v.after ≡ some (cancel r) =
        ap (find_intent_run id) v.cancels
        ∙ find-map id cancel (cancelled-id now intent.task_id run.scope_key run.id) db.runs h in
      let t' : of_task intent.task_id run.scope_key (cancel r) ≡ true =
        cancelled-of_task now intent.task_id run.scope_key run.id intent.task_id run.scope_key r
        ∙ t in
      let o : str_eq (cancel r).id run.id ≡ false =
        ap (λ t. str_eq t run.id) (cancelled-id now intent.task_id run.scope_key run.id r)
        ∙ other in
      let x = find-other id intent.task_id run.scope_key run.id v.after one t' o in
      subst (All (λ (d : OutboxRow). d.run_id ≡ id → is_open d ≡ false)) (sym v.outbox)
        (closed-deliveries now intent.task_id run.scope_key run.id id v.after db.outbox x)

  -- the admitted run stays current
  current-admitted :
      {r0 : IntentRun}
      → find_intent_run run.id db.runs ≡ some r0
      → str_eq r0.state "cancelled" ≡ false
      → retired_intent (intent_id run.id) db.intents ≡ false
      → ensure_task_current db' run.id ≡ ok tt
  unfolding ensure_task_current check_current
  current-admitted {r0} h0 live fresh =
      let cancel = cancelled_run now intent.task_id run.scope_key run.id in
      let y : str_eq r0.id run.id ≡ true = find-id run.id db.runs h0 in
      let same : cancel r0 ≡ r0 = rw y (ground arith) in
      let found : find_intent_run run.id db'.runs ≡ some (admitted_run intent run r0) =
        find-revised run.id h0 ∙ ap (λ r. some (admitted_run intent run r)) same in
      let bound : max_revision intent.task_id run.scope_key db.runs < intent.revision =
        let d = v.revision in omega arith in
      let n : newer_revision intent.task_id run.scope_key intent.revision db'.runs ≡ false =
        ap (newer_revision intent.task_id run.scope_key intent.revision)
          (v.runs ∙ ap (map (admitted_run intent run)) v.cancels)
        ∙ none-newer now intent run db.runs bound in
      let e : r0.id ≡ run.id = (eq_iff r0.id run.id).0 y in
      let u : retired_intent (intent_id r0.id) db'.intents ≡ false =
        v.unretired (intent_id r0.id)
          (ap (λ t. retired_intent (intent_id t) db.intents) e ∙ fresh) in
      elim (Bool-cases (str_eq (trim_space run.id) "")) [
        | inl b ↦ rw b refl
        | inr b ↦ rw b (rw found (rw y (rw (live, n, u) refl)))
      ]

-- When an action that is not passive (a redo, a correction, a stop) is admitted and found a task before it,
-- every other run of that task in the scope is no longer current, whatever its state was, and none of
-- its deliveries is pending or being sent; the admitted run itself stays current, where it was not
-- cancelled and its intent not retired. It holds for a run whose own row was inserted before the
-- admission, and for another run whose identifier is not blank.
pub admit_task_intent-supersedes :
    (e : IntentEnv) (db : IntentDb) (run : RunHead) (action message : String) (media : Bool)
    (id : String) {db' : IntentDb} {intent : TaskIntent} {r0 r : IntentRun}
    → is_passive action ≡ false
    → admit_task_intent e db run action message media ≡ ok (db', some intent)
    → str_eq intent.previous_run_id "" ≡ false
    → find_intent_run run.id db.runs ≡ some r0
    → find_intent_run id db.runs ≡ some r
    → of_task intent.task_id run.scope_key r ≡ true
    → str_eq r.id run.id ≡ false
    → str_eq (trim_space id) "" ≡ false
    → str_eq r0.state "cancelled" ≡ false
    → retired_intent (intent_id run.id) db.intents ≡ false
    → (ensure_task_current db' id ≡ err task_superseded)
      × All (λ (d : OutboxRow). d.run_id ≡ id → is_open d ≡ false) db'.outbox
      × (ensure_task_current db' run.id ≡ ok tt)
admit_task_intent-supersedes e db run action message media id {db'} {intent} active h named h0 hr t
      other blank live fresh =
    let v = admit-Revised e db run action message media active h named in
    (
      current-revised (now_stamp e.env) run db db' intent v id h0 hr t other blank,
      deliveries-revised (now_stamp e.env) run db db' intent v id hr t other,
      current-admitted (now_stamp e.env) run db db' intent v h0 live fresh,
    )

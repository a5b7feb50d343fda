-- ===== src/Intents/Revised.antt =====
-- What `admitTaskIntentTx` of go/task_intent.go changes where it makes another revision of a task.
use erdai_agent.Prelude.{
  suc, Bool, true, false, ◌&&◌, String, Option, none, some, str_eq, List, map, ◌≡◌, refl, arith,
  inl, inr, Bool-cases, Option-cases, subst, sym, ap, ◌∙◌,
}
use erdai_agent.Core.{Stamp, ok, or_fail, >>=-eq-ok, now_stamp, failed}
use erdai_agent.Intents.Prior.{is_passive, find_prior}
use erdai_agent.Intents.Changes.{
  cancelled_run, cancelled_delivery, supersede, admitted_run, max_revision, put_intent,
}
use erdai_agent.Intents.Store.{
  TaskIntent, IntentRun, IntentDb, RunHead, IntentEnv, retired_intent, IntentStep, intent_id,
}
use erdai_agent.Intents.Admit.{
  persist_task_intent, store_intent, first_intent, orphan_intent, about_prior, revised_intent,
  admit_prior, admit_action, decode_task_intent, admit_task_intent,
}
use erdai_agent.Intents.Kept.{retired-put}

-- what an admission of another revision does to the runs and the deliveries
pub record Revised (now : Stamp) (run : RunHead) (db db' : IntentDb) (intent : TaskIntent)
    : Type 0 where
  pub after : List IntentRun
  pub cancels : after ≡ map (cancelled_run now intent.task_id run.scope_key run.id) db.runs
  pub runs : db'.runs ≡ map (admitted_run intent run) after
  pub outbox :
      db'.outbox ≡ map (cancelled_delivery now intent.task_id run.scope_key run.id after) db.outbox
  pub revision : intent.revision ≡ suc (max_revision intent.task_id run.scope_key db.runs)
  pub unretired :
      (id : String) → retired_intent id db.intents ≡ false → retired_intent id db'.intents ≡ false

store_intent-ok :
    (e : IntentEnv) (db : IntentDb) (run : RunHead) (i : TaskIntent) {db' : IntentDb}
    {intent : TaskIntent}
    → store_intent e db run i ≡ ok (db', some intent)
    → (i ≡ intent)
      × (db'.runs ≡ map (admitted_run i run) db.runs)
      × (db'.outbox ≡ db.outbox)
      × ((id : String)
          → retired_intent id db.intents ≡ false
          → retired_intent id db'.intents ≡ false)
unfolding store_intent persist_task_intent
store_intent-ok e db run i {db'} {intent} h =
    let db1 = record db { runs = map (admitted_run i run) db.runs } in
    let (db2, p, h1) =
      >>=-eq-ok (persist_task_intent e db1 run.id i) (λ (d : IntentDb). ok (d, some i)) h in
    let (plain, p1, q) = >>=-eq-ok (or_fail (e.encode i) (failed "json")) _ p in
    let (cipher, p2, q1) = >>=-eq-ok (or_fail (e.env.encrypt plain) (failed "encryption")) _ q in
    let fresh : IntentStep = record {
      id = intent_id run.id;
      run_id = run.id;
      status = "succeeded";
      output_cipher = some cipher;
      error_code = "";
      updated_at = now_stamp e.env;
    } in
    let stored : put_intent fresh db.intents ≡ db'.intents = ground arith in
    (
      ground arith,
      ground arith,
      ground arith,
      λ id k.
          subst (λ ss. retired_intent id ss ≡ false) stored
            (retired-put id fresh db.intents refl k),
    )

orphan-previous :
    (media : Bool) (i : TaskIntent)
    → i.previous_run_id ≡ ""
    → (orphan_intent media i).previous_run_id ≡ ""
orphan-previous media i h = elim (Bool-cases (str_eq i.action "stop")) [
  | inl y ↦ rw y h
  | inr n ↦ rw n (elim (Bool-cases (str_eq i.action "correction" && media)) [
    | inl y ↦ rw y h
    | inr m ↦ rw m h
  ])
]

-- an intent that is stored as it is has its own previous run
store_intent-previous :
    (e : IntentEnv) (db : IntentDb) (run : RunHead) (i : TaskIntent) {db' : IntentDb}
    {intent : TaskIntent}
    → store_intent e db run i ≡ ok (db', some intent)
    → i.previous_run_id ≡ ""
    → str_eq intent.previous_run_id "" ≡ true
store_intent-previous e db run i h p =
    let (q, r, o, k) = store_intent-ok e db run i h in
    ap (λ (v : TaskIntent). str_eq v.previous_run_id "") (sym q) ∙ ap (λ t. str_eq t "") p

admit_prior-Revised :
    (e : IntentEnv) (db : IntentDb) (run : RunHead) (id message : String) (i prior : TaskIntent)
    {db' : IntentDb} {intent : TaskIntent}
    → is_passive i.action ≡ false
    → admit_prior e db run id message i prior ≡ ok (db', some intent)
    → Revised (now_stamp e.env) run db db' intent
unfolding admit_prior supersede
admit_prior-Revised e db run id message i prior {db'} {intent} active h =
    let k = suc (max_revision prior.task_id run.scope_key db.runs) in
    let now = now_stamp e.env in
    let i' = revised_intent k message (about_prior prior id i) in
    let db1 = supersede now prior.task_id run.scope_key run.id db in
    let h' : store_intent e db1 run i' ≡ ok (db', some intent) = ground arith in
    let (q, r, o, u) = store_intent-ok e db1 run i' h' in
    subst (λ (v : TaskIntent). Revised now run db db' v) q
      (record {
        after = db1.runs;
        cancels = refl;
        runs = r;
        outbox = o;
        revision = refl;
        unretired = u;
      })

pub admit-Revised :
    (e : IntentEnv) (db : IntentDb) (run : RunHead) (action message : String) (media : Bool)
    {db' : IntentDb} {intent : TaskIntent}
    → is_passive action ≡ false
    → admit_task_intent e db run action message media ≡ ok (db', some intent)
    → str_eq intent.previous_run_id "" ≡ false
    → Revised (now_stamp e.env) run db db' intent
unfolding admit_task_intent admit_action
admit-Revised e db run action message media {db'} {intent} active h named =
    let i = first_intent e run action message in
    elim (Bool-cases (str_eq action "")) [
      | inl y ↦
          let nothing : IntentDb × Option TaskIntent = (db, none) in
          let a : ok nothing ≡ ok (db', some intent) = ground arith in absurd cc
      | inr n ↦ elim (Bool-cases (str_eq action "new")) [
        | inl y ↦
            let a : store_intent e db run i ≡ ok (db', some intent) = ground arith in
            let b = store_intent-previous e db run i a refl in absurd (ground arith)
        | inr m ↦
            let a : admit_action e db run message media i (find_prior e db run db.runs)
                ≡ ok (db', some intent) =
              ground arith in
            elim (Option-cases (find_prior e db run db.runs)) [
              | inl p ↦
                  let b : store_intent e db run (orphan_intent media i) ≡ ok (db', some intent) =
                    subst (λ o. admit_action e db run message media i o ≡ ok (db', some intent)) p
                      a in
                  let c =
                    store_intent-previous e db run (orphan_intent media i) b
                      (orphan-previous media i refl) in
                  absurd (ground arith)
              | inr (p, q) ↦
                  let b : admit_action e db run message media i (some p) ≡ ok (db', some intent) =
                    subst (λ o. admit_action e db run message media i o ≡ ok (db', some intent)) q
                      a in
                  let (prior, d, c) =
                    >>=-eq-ok (decode_task_intent e p.1) (admit_prior e db run p.0 message i) b in
                  admit_prior-Revised e db run p.0 message i prior active c
            ]
      ]
    ]

-- ===== src/Intents/Admit.antt =====
-- `admitTaskIntentTx` and `persistTaskIntentTx` of go/task_intent.go. The action that `taskIntentAction`
-- reads from the words of a message is an argument, and so is whether the message asks for an
-- image or a video.
use erdai_agent.Prelude.{
  ℕ, suc, ◌+◌, ◌-◌, ltb, Bool, false, ◌&&◌, if◌then◌else◌, String, Option, none, some, str_eq, List,
  [], ◌∷◌, ◌++◌, map, length, drop,
}
use erdai_agent.Core.{Result, ok, or_fail, ◌>>=◌, failed, stamp, now_stamp}
use erdai_agent.Intents.Store.{TaskIntent, IntentDb, RunHead, IntentEnv, intent_id}
use erdai_agent.Intents.Prior.{is_passive, six_hours, find_prior}
use erdai_agent.Intents.Changes.{max_revision, supersede, admitted_run, put_intent}

-- `persistTaskIntentTx`
unfoldable pub persist_task_intent : IntentEnv → IntentDb → String → TaskIntent → Result IntentDb
unfolding put_intent
persist_task_intent e db run intent = do
  encoded ← or_fail (e.encode intent) (failed "json")
  cipher ← or_fail (e.env.encrypt encoded) (failed "encryption")
  ok (record db {
    intents =
        put_intent
          (record {
            id = intent_id run;
            run_id = run;
            status = "succeeded";
            output_cipher = some cipher;
            error_code = "";
            updated_at = now_stamp e.env;
          })
          db.intents;
  })

-- the row of the run and its intent are written
unfoldable pub store_intent :
    IntentEnv → IntentDb → RunHead → TaskIntent → Result (IntentDb × Option TaskIntent)
unfolding persist_task_intent
store_intent e db run intent =
    persist_task_intent e (record db { runs = map (admitted_run intent run) db.runs }) run.id intent
    >>= λ (db' : IntentDb). ok (db', some intent)

abbrev pub first_intent : IntentEnv → RunHead → String → String → TaskIntent
first_intent e run action message = record {
  version = 1;
  task_id = run.id;
  revision = 1;
  action = action;
  goal = message;
  user_request = message;
  constraints = [];
  forbidden = [];
  source_message_id = run.message_id;
  referenced_message_id = run.reply_to_message_id;
  previous_run_id = "";
  clarification = "";
  parsed_by = "rules";
  expires_at = (stamp e.env (e.env.now + six_hours)).text;
  retired = false;
}

-- an intent about a task before
abbrev pub about_prior : TaskIntent → String → TaskIntent → TaskIntent
about_prior prior id intent = record intent {
  task_id = prior.task_id;
  goal = prior.goal;
  previous_run_id = id;
  constraints = prior.constraints;
  forbidden = prior.forbidden;
}

abbrev passive_intent : TaskIntent → TaskIntent → TaskIntent
passive_intent prior intent = record intent {
  revision = prior.revision;
  clarification =
      if str_eq intent.action "continue" && str_eq prior.action "stop"
      then "上一个任务已停止。是重做它，还是开始另一项任务？"
      else intent.clarification;
}

-- the last twelve
abbrev last_twelve : List String → List String
last_twelve cs = if ltb 12 (length cs) then drop (length cs - 12) cs else cs

abbrev pub revised_intent : ℕ → String → TaskIntent → TaskIntent
revised_intent revision message intent = record intent {
  revision = revision;
  constraints = last_twelve (
      if str_eq intent.action "correction"
      then intent.constraints ++ message ∷ []
      else intent.constraints);
}

-- an action where no task was found before it
abbrev pub orphan_intent : Bool → TaskIntent → TaskIntent
orphan_intent media intent =
    if str_eq intent.action "stop"
    then intent
    else if str_eq intent.action "correction" && media
    then record intent { action = "new" }
    else record intent { clarification = "你要继续或修改的是哪一项？回复那条消息，或把要求再发一次。" }

-- an action on a task that was found: another revision, or none
unfoldable pub admit_prior :
    IntentEnv
    → IntentDb
    → RunHead
    → String
    → String
    → TaskIntent
    → TaskIntent
    → Result (IntentDb × Option TaskIntent)
unfolding store_intent supersede max_revision
admit_prior e db run id message intent prior =
    if is_passive intent.action
    then store_intent e db run (passive_intent prior (about_prior prior id intent))
    else store_intent e (supersede (now_stamp e.env) prior.task_id run.scope_key run.id db) run (
        revised_intent (suc (max_revision prior.task_id run.scope_key db.runs)) message
          (about_prior prior id intent))

-- `decodeTaskIntent`
unfoldable pub decode_task_intent : IntentEnv → String → Result TaskIntent
decode_task_intent e cipher = do
  plain ← or_fail (e.decrypt cipher) (failed "decryption")
  or_fail (e.decode plain) (failed "json")

unfoldable pub admit_action :
    IntentEnv
    → IntentDb
    → RunHead
    → String
    → Bool
    → TaskIntent
    → Option (String × String)
    → Result (IntentDb × Option TaskIntent)
unfolding store_intent admit_prior decode_task_intent
admit_action e db run message media intent none = store_intent e db run (orphan_intent media intent)
admit_action e db run message media intent (some p) =
    decode_task_intent e p.1 >>= admit_prior e db run p.0 message intent

-- `admitTaskIntentTx`
unfoldable pub admit_task_intent :
    IntentEnv → IntentDb → RunHead → String → String → Bool → Result (IntentDb × Option TaskIntent)
unfolding store_intent admit_action find_prior
admit_task_intent e db run action message media =
    let intent = first_intent e run action message in
    if str_eq action ""
    then ok (db, none)
    else if str_eq action "new"
    then store_intent e db run intent
    else admit_action e db run message media intent (find_prior e db run db.runs)

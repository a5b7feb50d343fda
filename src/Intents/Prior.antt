-- ===== src/Intents/Prior.antt =====
-- The query of `admitTaskIntentTx` of go/task_intent.go for the task that a message is about.
use erdai_agent.Prelude.{
  ℕ, ◌-◌, leb, Bool, false, ◌&&◌, ◌||◌, not, if◌then◌else◌, String, Option, none, some, str_eq,
  List, [], ◌∷◌,
}
use erdai_agent.Core.{stamp}
use erdai_agent.Intents.Store.{
  IntentRun, IntentStep, OutboxRow, SentPart, IntentDb, RunHead, IntentEnv, intent_id, find_intent,
}

-- an action that refers to a task and does not make another revision of it
abbrev pub is_passive : String → Bool
is_passive action = str_eq action "continue" || str_eq action "accepted" || str_eq action "rejected"

abbrev intent_cipher : Option String → String
intent_cipher none = ""
intent_cipher (some c) = c

abbrev pub six_hours : ℕ
six_hours = 21_600_000_000_000

abbrev not_before : Option ℕ → Option ℕ → Bool
not_before (some a) (some b) = leb b a
not_before _ _ = false

-- whether a delivery of the run was sent as the message
abbrev is_delivery : String → String → OutboxRow → Bool
is_delivery id run d = str_eq d.id id && str_eq d.run_id run

delivers : String → String → List OutboxRow → Bool
delivers id run [] = false
delivers id run (d ∷ ds) = is_delivery id run d || delivers id run ds

sent_as : String → String → List OutboxRow → List SentPart → Bool
unfolding delivers
sent_as message run ds [] = false
sent_as message run ds (p ∷ ps) =
    (str_eq p.message_id message && delivers p.delivery_id run ds) || sent_as message run ds ps

-- the message that a reply refers to
unfoldable pub replied : IntentDb → String → IntentRun → Bool
unfolding sent_as
replied db reply r =
    str_eq reply "" || str_eq r.message_id reply || sent_as reply r.id db.outbox db.parts

-- the WHERE of the query for the task before
unfoldable pub is_candidate : IntentEnv → IntentDb → RunHead → IntentRun → Bool
unfolding replied
is_candidate e db run r =
    str_eq r.task_scope_key run.scope_key
    && not (str_eq r.id run.id)
    && not (is_passive r.task_action)
    && not_before (e.julianday r.created_at)
        (e.julianday (stamp e.env (e.env.now - six_hours)).text)
    && replied db run.reply_to_message_id r

abbrev stored_intent : IntentRun → Option IntentStep → Option (String × String)
stored_intent r none = none
stored_intent r (some s) =
    if str_eq s.status "succeeded" then some (r.id, intent_cipher s.output_cipher) else none

abbrev or_else : Option (String × String) → Option (String × String) → Option (String × String)
or_else none o = o
or_else (some p) o = some p

-- … ORDER BY r.rowid DESC LIMIT 1: the last of the runs, in the order of their insertion
unfoldable pub find_prior :
    IntentEnv → IntentDb → RunHead → List IntentRun → Option (String × String)
unfolding is_candidate find_intent
find_prior e db run [] = none
find_prior e db run (r ∷ rs) =
    let rest = find_prior e db run rs in
    let this = stored_intent r (find_intent (intent_id r.id) db.intents) in
    or_else rest (if is_candidate e db run r then this else none)

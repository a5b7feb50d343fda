-- ===== src/Jobs/Command.antt =====
-- The chat commands on durable jobs: `isSlashCommand` and `parseDurableJobCommand` of
-- go/status_commands.go, and `handleDurableJobDirectCommand` of go/durable_jobs.go.
use Prim.Native.Char.{Char, code}
use Prim.Native.String.{count}
use Prim.Native.String
use erdai_agent.Prelude.{
  Bool, true, false, not, ◌&&◌, ◌||◌, if◌then◌else◌, leb, String, Option, none, some, str_eq, List,
  [], ◌∷◌, pos,
}
use erdai_agent.Core.{Env, Result, ok, ◌>>=◌, ◌>>◌, guard, or_fail, invalid, not_found}
use erdai_agent.Text.{is_space, trim_space, has_prefix, contains, trim_prefix}
use erdai_agent.Jobs.Status.{status_text}
use erdai_agent.Jobs.Store.{Job, Store, find_job}
use erdai_agent.Jobs.Goal.{needs_approval, job_title, plan_from_goal}
use erdai_agent.Jobs.Create.{CreatePayload, create_job}
use erdai_agent.Jobs.Manage.{transition_job, update_goal}

-- a word that goes on, or the start of the next one
abbrev grow : Char → List String → List String
grow c [] = String.◌∷◌ c "" ∷ []
grow c (w ∷ ws) = String.◌∷◌ c w ∷ ws

-- the words from here on; the first one is empty where the text begins with a space
words : String → List String
words String.[] = "" ∷ []
words (String.◌∷◌ c s) = let rest = words s in if is_space (code c) then "" ∷ rest else grow c rest

drop_empty : List String → List String
drop_empty [] = []
drop_empty (w ∷ ws) = let rest = drop_empty ws in if str_eq w "" then rest else w ∷ rest

-- `strings.Fields`
unfoldable pub fields : String → List String
unfolding words drop_empty is_space
fields s = drop_empty (words s)

unfoldable pub is_slash_command : String → Bool
unfolding has_prefix contains trim_space
is_slash_command message =
    let m = trim_space message in
    has_prefix m "/" && not (contains m "\r" || contains m "\n") && leb (count m) 120

-- the fields of `coreDirectCommand` that a durable job uses
pub record JobCommand : Type 0 where
  pub action : String
  pub id : String
  pub goal : String

-- the map from the words of a command to its action; the empty text for another word
unfoldable pub action_of : String → String
action_of alias =
    if str_eq alias "暂停任务"
    then "pause"
    else if str_eq alias "继续任务"
    then "resume"
    else if str_eq alias "取消任务"
    then "cancel"
    else if str_eq alias "重试任务"
    then "retry"
    else if str_eq alias "批准任务" || str_eq alias "同意任务"
    then "approve"
    else ""

abbrev unless_empty : String → JobCommand → Option JobCommand
unless_empty goal c = if str_eq goal "" then none else some c

-- `parts[1]`, where there is one
abbrev second : List String → String
second (a ∷ b ∷ ws) = b
second ws = ""

abbrev has_two : List String → Bool
has_two (a ∷ b ∷ []) = true
has_two ws = false

abbrev has_three : List String → Bool
has_three (a ∷ b ∷ c ∷ ws) = true
has_three ws = false

abbrev edited : String → String → List String → Option JobCommand
edited text first rest =
    if not (has_three rest) || str_eq (trim_space (second rest)) ""
    then none
    else (let goal = trim_space (trim_prefix (trim_space (trim_prefix text first)) (second rest)) in
        unless_empty goal
          (record { action = "update"; id = trim_space (second rest); goal = goal }))

-- the command of a text and its words
parse_parts : String → List String → Option JobCommand
unfolding action_of trim_prefix trim_space
parse_parts text [] = none
parse_parts text (first ∷ more) =
    let alias = trim_space (trim_prefix first "/") in
    let parts = first ∷ more in
    if str_eq alias "任务" || str_eq alias "长期任务"
    then (let goal = trim_space (trim_prefix text first) in
        unless_empty goal (record { action = "create"; id = ""; goal = goal }))
    else if not (str_eq (action_of alias) "")
        && has_two parts
        && not (str_eq (trim_space (second parts)) "")
    then some (record { action = action_of alias; id = trim_space (second parts); goal = "" })
    else if str_eq alias "任务改为" || str_eq alias "修改任务"
    then edited text first parts
    else none

unfoldable pub parse_job_command : String → Option JobCommand
unfolding parse_parts is_slash_command fields trim_space
parse_job_command message =
    if is_slash_command message
    then parse_parts (trim_space message) (fields (trim_space message))
    else none

-- what the handler reads of the run
pub record Caller : Type 0 where
  pub sender_ref : String
  pub conversation_ref : String
  pub agent_instance_id : String
  pub transport : String
  pub message_id : String
  pub is_admin : Bool

abbrev join : List String → String
join [] = ""
join (s ∷ ss) = String.◌++◌ s (join ss)

unfoldable pub command_payload : Env → Caller → String → CreatePayload
command_payload e run goal = record {
  owner_id = trim_space run.sender_ref;
  workspace_id = trim_space run.conversation_ref;
  bot_id = trim_space run.agent_instance_id;
  source_transport = run.transport;
  source_conversation_ref = run.conversation_ref;
  source_message_id = run.message_id;
  title = job_title goal;
  goal = goal;
  instruction = goal;
  plan = plan_from_goal goal;
  requires_approval = needs_approval e goal;
  priority = pos 0;
  next_run_at = "";
  max_attempts = pos 0;
  idempotency_key = "";
  start_immediately = some true;
}

abbrev created_text : Job → String
created_text j = join (
    "已创建长期任务："
    ∷ j.title
    ∷ "\n任务编号："
    ∷ j.id
    ∷ "\n状态："
    ∷ (if j.requires_approval then "等待确认" else "已排队")
    ∷ [])

unfoldable pub label_of : String → String
label_of action =
    if str_eq action "pause"
    then "已暂停"
    else if str_eq action "resume"
    then "已继续"
    else if str_eq action "cancel"
    then "已取消"
    else if str_eq action "retry"
    then "已安排重试"
    else if str_eq action "approve"
    then "已批准"
    else if str_eq action "update"
    then "已更新目标"
    else "已更新"

-- the operation on the job that was found
unfoldable pub operate : Env → Store → String → JobCommand → String → Result (Store × Job)
operate e s id command actor =
    if str_eq command.action "update"
    then update_goal e s id command.goal actor
    else transition_job e s id command.action actor

-- the job has to be the sender's own, unless an administrator asks
unfoldable pub operate_own : Env → Store → Caller → JobCommand → Result (Store × Job)
operate_own e s run command = do
  value ← or_fail (find_job command.id s.jobs) (not_found "durable job")
  guard (not (not run.is_admin && not (str_eq value.owner_id (trim_space run.sender_ref))))
      (invalid "只能操作自己创建的任务")
  operate e s value.id command (trim_space run.sender_ref)

abbrev pub created_answer : Store × Job × Bool → Result (Store × String)
created_answer r = ok (r.0, created_text r.1)

abbrev pub operated_text : String → Job → String
operated_text action j = join (label_of action ∷ "：" ∷ j.id ∷ "\n当前状态：" ∷ status_text j.status ∷ [])

abbrev pub operated_answer : String → Store × Job → Result (Store × String)
operated_answer action r = ok (r.0, operated_text action r.1)

-- `handleDurableJobDirectCommand`: the tables and the text of the answer
unfoldable pub direct_command : Env → Store → Caller → JobCommand → Result (Store × String)
unfolding command_payload label_of
direct_command e s run command =
    guard (not (str_eq (trim_space run.sender_ref) ""))
      (invalid "sender identity is required for durable jobs")
    >> (if str_eq command.action "create"
        then create_job e s (command_payload e run (trim_space command.goal)) >>= created_answer
        else operate_own e s run command >>= operated_answer command.action)

-- ===== src/Jobs/Goal.antt =====
-- What a goal's text decides: the approval gate, the title and the recurring plan.
-- `durableJobNeedsApproval`, `durableJobTitle`, `durableJobPlanFromGoal`, `durableJobNextRun`.
use Prim.Native.String.{count}
use Prim.Native.String
use erdai_agent.Prelude.{
  ℕ, zero, suc, ◌+◌, ◌*◌, Bool, false, ◌||◌, if◌then◌else◌, String, Option, none, some, str_eq, ltb,
  List, [], ◌∷◌,
}
use erdai_agent.Core.{Env, minute, hour}
use erdai_agent.Text.{trim_space, contains}
use erdai_agent.Jobs.Store.{Plan, text, other}

contains_any : String → List String → Bool
contains_any goal [] = false
contains_any goal (w ∷ ws) = contains goal w || contains_any goal ws

abbrev risky_words : List String
risky_words = "删除" ∷ "部署" ∷ "发布" ∷ "付款" ∷ "支付" ∷ "发送" ∷ "群发" ∷ "修改生产" ∷ "清理服务器" ∷ []

unfoldable pub needs_approval : Env → String → Bool
unfolding contains_any contains trim_space
needs_approval e goal = contains_any (e.lower (trim_space goal)) risky_words

-- the first `n` runes
take_runes : ℕ → String → String
take_runes zero s = ""
take_runes (suc n) String.[] = ""
take_runes (suc n) (String.◌∷◌ c s) = String.◌∷◌ c (take_runes n s)

unfoldable pub job_title : String → String
unfolding take_runes trim_space
job_title goal =
    let goal' = trim_space goal in
    if ltb 80 (count goal') then String.◌++◌ (take_runes 80 goal') "…" else goal'

abbrev pub recurring : String → Plan
recurring interval = ("kind", text "recurring") ∷ ("interval", text interval) ∷ []

-- `none` is the nil map
unfoldable pub plan_from_goal : String → Option Plan
unfolding contains_any contains trim_space
plan_from_goal goal =
    let goal' = trim_space goal in
    if str_eq goal' ""
    then none
    else if contains_any goal' ("每分钟" ∷ "每1分钟" ∷ [])
    then some (recurring "minutely")
    else if contains_any goal' ("每小时" ∷ "每1小时" ∷ [])
    then some (recurring "hourly")
    else if contains_any goal' ("每天" ∷ "每日" ∷ [])
    then some (recurring "daily")
    else if contains_any goal' ("每周" ∷ "每星期" ∷ [])
    then some (recurring "weekly")
    else none

-- `plan["interval"].(string)`: the empty text where the key or the type is another
unfoldable pub plan_interval : Plan → String
plan_interval [] = ""
plan_interval ((k, text v) ∷ m) = if str_eq k "interval" then v else plan_interval m
plan_interval ((k, other) ∷ m) = if str_eq k "interval" then "" else plan_interval m

-- the time of the next round, for a recurring plan
unfoldable pub next_run : Env → Plan → ℕ → Option ℕ
unfolding plan_interval trim_space
next_run e plan now =
    let interval = e.lower (trim_space (plan_interval plan)) in
    if str_eq interval "minutely"
    then some (now + minute)
    else if str_eq interval "hourly"
    then some (now + hour)
    else if str_eq interval "daily"
    then some (now + 24 * hour)
    else if str_eq interval "weekly"
    then some (now + 7 * (24 * hour))
    else none

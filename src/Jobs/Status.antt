-- ===== src/Jobs/Status.antt =====
-- The statuses of a durable job and the table of the moves between them: the constants and
-- `durableJobTransitionAllowed` of go/durable_jobs.go.
use erdai_agent.Prelude.{
  ℕ, Bool, true, false, ◌||◌, ◌==◌, if◌then◌else◌, String, Option, none, some, str_eq, List, [],
  ◌∷◌,
}
use erdai_agent.Text.{trim_space}

pub data Status : Type 0 where
  planned queued leased running checkpointed waiting_approval waiting_external paused : Status
  retrying succeeded failed cancelled dead_letter unknown_manual : Status

-- the text of the column
abbrev pub status_text : Status → String
status_text planned = "planned"
status_text queued = "queued"
status_text leased = "leased"
status_text running = "running"
status_text checkpointed = "checkpointed"
status_text waiting_approval = "waiting_approval"
status_text waiting_external = "waiting_external"
status_text paused = "paused"
status_text retrying = "retrying"
status_text succeeded = "succeeded"
status_text failed = "failed"
status_text cancelled = "cancelled"
status_text dead_letter = "dead_letter"
status_text unknown_manual = "unknown_manual"

abbrev ordinal : Status → ℕ
ordinal planned = 0
ordinal queued = 1
ordinal leased = 2
ordinal running = 3
ordinal checkpointed = 4
ordinal waiting_approval = 5
ordinal waiting_external = 6
ordinal paused = 7
ordinal retrying = 8
ordinal succeeded = 9
ordinal failed = 10
ordinal cancelled = 11
ordinal dead_letter = 12
ordinal unknown_manual = 13

-- `==` of two statuses
abbrev pub is : Status → Status → Bool
is a b = ordinal a == ordinal b

-- the `switch` of `durableJobTransitionAllowed`
abbrev switch : Status → Status → Bool
switch planned to = is to queued || is to waiting_approval || is to cancelled
switch queued to = is to leased || is to paused || is to cancelled
switch leased to = is to running || is to queued || is to paused || is to cancelled
switch running to =
    is to checkpointed
    || is to waiting_approval
    || is to waiting_external
    || is to retrying
    || is to succeeded
    || is to failed
    || is to dead_letter
    || is to planned
    || is to unknown_manual
switch checkpointed to = is to queued || is to running || is to paused || is to cancelled
switch waiting_approval to = is to queued || is to running || is to cancelled
switch waiting_external to = is to queued || is to running || is to cancelled
switch paused to = is to queued || is to running || is to cancelled
switch retrying to =
    is to queued || is to running || is to failed || is to dead_letter || is to cancelled
switch failed to = is to retrying || is to queued || is to cancelled || is to dead_letter
switch unknown_manual to = is to retrying || is to queued || is to cancelled || is to dead_letter
switch cancelled to = is to retrying
switch succeeded to = false
switch dead_letter to = false

unfoldable pub transition_allowed : Status → Status → Bool
transition_allowed from to = if is from to then true else switch from to

-- `normalizeDurableJobStatus`, over the set of the fourteen texts
lookup_status : List Status → String → Option Status
lookup_status [] value = none
lookup_status (s ∷ ss) value =
    let rest = lookup_status ss value in if str_eq (status_text s) value then some s else rest

abbrev pub all_statuses : List Status
all_statuses =
    planned ∷ queued ∷ leased ∷ running ∷ checkpointed ∷ waiting_approval ∷ waiting_external
    ∷ paused ∷ retrying ∷ succeeded ∷ failed ∷ cancelled ∷ dead_letter ∷ unknown_manual ∷ []

unfoldable pub normalize_status : String → Option Status
unfolding lookup_status trim_space
normalize_status value = lookup_status all_statuses (trim_space value)

-- ===== src/Scope/Keys.antt =====
-- `runtimeScope` of go/runtime_scope.go and its keys. A key is the list of its bytes, since the parts
-- are joined with their lengths in bytes; the fields are texts. `strings.ToLower` is of the environment.
use Prim.Native.Char.{code}
use Prim.Native.String.{String}
use erdai_agent.Prelude.{ℕ, ◌+◌, ◌/◌, ◌%◌, ltb, str_eq, if◌then◌else◌, List, [], ◌∷◌, ◌++◌, length}
use erdai_agent.Text.{trim_space}
use erdai_agent.Jobs.Create.{legacy_agent_instance_id}
use erdai_agent.Scope.Decimal.{itoa}

pub record RuntimeScope : Type 0 where
  pub agent_instance_id : String
  pub memory_namespace : String
  pub transport : String
  pub transport_instance : String
  pub conversation_ref : String
  pub thread_key : String
  pub sender_ref : String

-- the bytes of a character in UTF-8
unfoldable pub utf8 : ℕ → List ℕ
utf8 c =
    if ltb c 128
    then c ∷ []
    else if ltb c 2048
    then (192 + c / 64) ∷ (128 + c % 64) ∷ []
    else if ltb c 65536
    then (224 + c / 4096) ∷ (128 + c / 64 % 64) ∷ (128 + c % 64) ∷ []
    else (240 + c / 262144) ∷ (128 + c / 4096 % 64) ∷ (128 + c / 64 % 64) ∷ (128 + c % 64) ∷ []

-- a text as Go holds it
unfoldable pub bytes : String → List ℕ
unfolding utf8
bytes String.[] = []
bytes (String.◌∷◌ c s) = utf8 (code c) ++ bytes s

abbrev pub or_default : String → String → String
or_default s d = if str_eq s "" then d else s

-- `normalized`
unfoldable pub normalized : (String → String) → RuntimeScope → RuntimeScope
normalized lower s =
    let agent = or_default (trim_space s.agent_instance_id) legacy_agent_instance_id in
    record {
      agent_instance_id = agent;
      memory_namespace = or_default (trim_space s.memory_namespace) agent;
      transport = lower (trim_space s.transport);
      transport_instance = trim_space s.transport_instance;
      conversation_ref = trim_space s.conversation_ref;
      thread_key = trim_space s.thread_key;
      sender_ref = trim_space s.sender_ref;
    }

-- `joinScopeParts`: each part with its length before it; ':' is 58 and '|' is 124
unfoldable pub join_scope_parts : List (List ℕ) → List ℕ
join_scope_parts [] = []
join_scope_parts (part ∷ parts) =
    itoa (length part) ++ (58 ∷ (part ++ (124 ∷ join_scope_parts parts)))

-- the ten parts of a conversation's key, of a normalized scope
unfoldable pub conversation_parts : RuntimeScope → List (List ℕ)
conversation_parts s =
    bytes "memory"
    ∷ bytes s.memory_namespace
    ∷ bytes "transport"
    ∷ bytes s.transport
    ∷ bytes "connector"
    ∷ bytes s.transport_instance
    ∷ bytes "conversation"
    ∷ bytes s.conversation_ref
    ∷ bytes "thread"
    ∷ bytes s.thread_key
    ∷ []

abbrev pub sender_parts : RuntimeScope → List (List ℕ)
sender_parts s = bytes "sender" ∷ bytes s.sender_ref ∷ []

unfoldable pub conversation_key : (String → String) → RuntimeScope → List ℕ
conversation_key lower s = join_scope_parts (conversation_parts (normalized lower s))

unfoldable pub sender_key : (String → String) → RuntimeScope → List ℕ
sender_key lower s =
    let s' = normalized lower s in conversation_key lower s' ++ join_scope_parts (sender_parts s')

unfoldable pub user_key : (String → String) → RuntimeScope → List ℕ
user_key lower s =
    let s' = normalized lower s in
    join_scope_parts (
      bytes "memory"
      ∷ bytes s'.memory_namespace
      ∷ bytes "transport"
      ∷ bytes s'.transport
      ∷ bytes "connector"
      ∷ bytes s'.transport_instance
      ∷ sender_parts s')

unfoldable pub memory_key : (String → String) → RuntimeScope → String → String → String → List ℕ
memory_key lower s persona_id kind reference =
    let s' = normalized lower s in
    conversation_key lower s'
    ++ join_scope_parts (
        bytes "persona"
        ∷ bytes (trim_space persona_id)
        ∷ bytes "kind"
        ∷ bytes (trim_space kind)
        ∷ bytes "reference"
        ∷ bytes (trim_space reference)
        ∷ [])

-- traffic of no explicit instance keeps its historic keys
unfoldable pub memory_conversation_ref : (String → String) → RuntimeScope → List ℕ
memory_conversation_ref lower s =
    let s' = normalized lower s in
    if str_eq s'.memory_namespace legacy_agent_instance_id
    then bytes s'.conversation_ref
    else conversation_key lower s'

unfoldable pub memory_sender_ref : (String → String) → RuntimeScope → List ℕ
memory_sender_ref lower s =
    let s' = normalized lower s in
    if str_eq s'.memory_namespace legacy_agent_instance_id
    then bytes s'.sender_ref
    else sender_key lower s'

unfoldable pub user_memory_ref : (String → String) → RuntimeScope → List ℕ
user_memory_ref lower s =
    let s' = normalized lower s in
    if str_eq s'.memory_namespace legacy_agent_instance_id
    then bytes s'.sender_ref
    else user_key lower s'

unfoldable pub group_memory_ref : (String → String) → RuntimeScope → List ℕ
group_memory_ref = memory_conversation_ref

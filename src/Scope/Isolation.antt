-- ===== src/Scope/Isolation.antt =====
-- The keys of go/runtime_scope.go keep scopes apart, and the platform's own reference of a sender
-- comes back out of the scoped one.
use erdai_agent.Prelude.{
  ℕ, true, false, some, List, [], ◌++◌, All, ◌≡◌, refl, sym, ap, ◌∙◌, if_true, if_false, String,
  str_eq, Bool-cases, inl, inr,
}
use erdai_agent.Wechat.Frame.{same_bytes}
use erdai_agent.Wechat.RoundTrip.{same_bytes_refl}
use erdai_agent.Text.{trim_space, trim_space-trim_space}
use erdai_agent.Jobs.Create.{legacy_agent_instance_id}
use erdai_agent.Scope.Keys.{
  RuntimeScope, bytes, or_default, normalized, join_scope_parts, conversation_parts, sender_parts,
  conversation_key, sender_key, memory_sender_ref,
}
use erdai_agent.Scope.Parts.{
  read_parts, platform_parts, answer, part_at, relationship_platform_sender_ref,
}
use erdai_agent.Scope.RoundTrip.{Short, join-append, read_parts-whole, join_scope_parts-injective}

-- `strings.ToLower` makes no space at the ends, and lowers once
abbrev pub Lowers : (String → String) → Type 0
Lowers lower = (t : String) → lower (trim_space (lower (trim_space t))) ≡ lower (trim_space t)

default-trim :
    (a d : String)
    → trim_space d ≡ d
    → trim_space (or_default (trim_space a) d) ≡ or_default (trim_space a) d
default-trim a d h = elim (Bool-cases (str_eq (trim_space a) "")) [
  | inl y ↦ rw y h
  | inr n ↦ rw n (trim_space-trim_space a)
]

trim-legacy : trim_space legacy_agent_instance_id ≡ legacy_agent_instance_id
unfolding trim_space
trim-legacy = refl

default-default : (a d : String) → or_default (or_default a d) d ≡ or_default a d
default-default a d = elim (Bool-cases (str_eq a "")) [
  | inl y ↦ rw y (elim (Bool-cases (str_eq d "")) [ inl e ↦ rw e refl | inr n ↦ rw n refl ])
  | inr n ↦ rw n (if_false _ _ _ n)
]

abbrev scope_of : String → String → String → String → String → String → String → RuntimeScope
scope_of a n t i c k r = record {
  agent_instance_id = a;
  memory_namespace = n;
  transport = t;
  transport_instance = i;
  conversation_ref = c;
  thread_key = k;
  sender_ref = r;
}

same_scope :
    {a a' n n' t t' i i' c c' k k' r r' : String}
    → a ≡ a'
    → n ≡ n'
    → t ≡ t'
    → i ≡ i'
    → c ≡ c'
    → k ≡ k'
    → r ≡ r'
    → scope_of a n t i c k r ≡ scope_of a' n' t' i' c' k' r'
same_scope p₁ p₂ p₃ p₄ p₅ p₆ p₇ = rw (p₁, p₂, p₃, p₄, p₅, p₆, p₇) refl

-- a normalized scope is normal
pub normalized-normalized :
    (lower : String → String)
    → Lowers lower
    → (s : RuntimeScope) → normalized lower (normalized lower s) ≡ normalized lower s
unfolding normalized
normalized-normalized lower low s =
    let agent = or_default (trim_space s.agent_instance_id) legacy_agent_instance_id in
    let space = or_default (trim_space s.memory_namespace) agent in
    let a = default-trim s.agent_instance_id legacy_agent_instance_id trim-legacy in
    let a' : or_default (trim_space agent) legacy_agent_instance_id ≡ agent =
      ap (λ t. or_default t legacy_agent_instance_id) a
      ∙ default-default (trim_space s.agent_instance_id) legacy_agent_instance_id in
    let n : or_default (trim_space space) (or_default (trim_space agent) legacy_agent_instance_id)
        ≡ space =
      ap (or_default (trim_space space)) a'
      ∙ ap (λ t. or_default t agent) (default-trim s.memory_namespace agent a)
      ∙ default-default (trim_space s.memory_namespace) agent in
    same_scope a' n (low s.transport) (trim_space-trim_space s.transport_instance)
      (trim_space-trim_space s.conversation_ref) (trim_space-trim_space s.thread_key)
      (trim_space-trim_space s.sender_ref)

-- the parts of a sender's key
abbrev pub all_parts : RuntimeScope → List (List ℕ)
all_parts s = conversation_parts s ++ sender_parts s

-- each field is a text that a machine can hold
abbrev pub Fits : (String → String) → RuntimeScope → Type 0
Fits lower s = All Short (all_parts (normalized lower s))

-- an instance of its own, not the legacy traffic
abbrev pub Explicit : (String → String) → RuntimeScope → Type 0
Explicit lower s = str_eq (normalized lower s).memory_namespace legacy_agent_instance_id ≡ false

abbrev pub SameSender : RuntimeScope → RuntimeScope → Type 0
SameSender s t =
    (bytes s.memory_namespace ≡ bytes t.memory_namespace)
    × (bytes s.transport ≡ bytes t.transport)
    × (bytes s.transport_instance ≡ bytes t.transport_instance)
    × (bytes s.conversation_ref ≡ bytes t.conversation_ref)
    × (bytes s.thread_key ≡ bytes t.thread_key)
    × (bytes s.sender_ref ≡ bytes t.sender_ref)

module _ (lower : String → String) (low : Lowers lower) where
  conversation_key-normalized :
      (s : RuntimeScope) → conversation_key lower (normalized lower s) ≡ conversation_key lower s
  unfolding conversation_key
  conversation_key-normalized s =
      ap (λ n. join_scope_parts (conversation_parts n)) (normalized-normalized lower low s)

  sender_key-join :
      (s : RuntimeScope) → sender_key lower s ≡ join_scope_parts (all_parts (normalized lower s))
  unfolding sender_key conversation_key
  sender_key-join s =
      let n = normalized lower s in
      ap (λ l. l ++ join_scope_parts (sender_parts n)) (conversation_key-normalized s)
      ∙ sym (join-append (conversation_parts n) (sender_parts n))

  read-sender_key :
      (s : RuntimeScope)
      → Fits lower s
      → read_parts 12 (sender_key lower s) ≡ some (all_parts (normalized lower s), [])
  unfolding conversation_parts
  read-sender_key s h =
      ap (read_parts 12) (sender_key-join s) ∙ read_parts-whole (all_parts (normalized lower s)) h

  twelve_parts :
      (n : RuntimeScope)
      → platform_parts (join_scope_parts (conversation_parts n)) (all_parts n) [] ≡ true
  unfolding platform_parts conversation_parts same_bytes bytes
  twelve_parts n = same_bytes_refl (join_scope_parts (conversation_parts n))

  -- From the scoped reference of a sender the platform's own reference comes back, whatever bytes the
  -- fields hold: the quota of a member is read under the identity that the platform knows.
  pub platform_sender_ref-sender_key :
      (s : RuntimeScope)
      → Fits lower s
      → relationship_platform_sender_ref (conversation_key lower s) (sender_key lower s)
        ≡ bytes (normalized lower s).sender_ref
  unfolding relationship_platform_sender_ref conversation_key conversation_parts
  platform_sender_ref-sender_key s h =
      ap (answer (conversation_key lower s) (sender_key lower s)) (read-sender_key s h)
      ∙ if_true _ _ _ (twelve_parts (normalized lower s))

  memory_sender_ref-join :
      (s : RuntimeScope)
      → Explicit lower s
      → memory_sender_ref lower s ≡ join_scope_parts (all_parts (normalized lower s))
  unfolding memory_sender_ref
  memory_sender_ref-join s x =
      if_false _ _ _ x
      ∙ sender_key-join (normalized lower s)
      ∙ ap (λ n. join_scope_parts (all_parts n)) (normalized-normalized lower low s)

  -- Two interactions of explicit instances whose memories of a sender are kept under the same
  -- reference agree in the memory namespace, the transport, the connector, the conversation, the
  -- thread and the sender, byte by byte after normalization: no memory leaks between two of them.
  pub memory_sender_ref-isolates :
      (s t : RuntimeScope)
      → Fits lower s
      → Fits lower t
      → Explicit lower s
      → Explicit lower t
      → memory_sender_ref lower s ≡ memory_sender_ref lower t
      → SameSender (normalized lower s) (normalized lower t)
  unfolding conversation_parts
  memory_sender_ref-isolates s t h k x y e =
      let same =
        join_scope_parts-injective (all_parts (normalized lower s)) (all_parts (normalized lower t))
          h k refl (sym (memory_sender_ref-join s x) ∙ e ∙ memory_sender_ref-join t y) in
      (
        ap (λ l. part_at l 1) same,
        ap (λ l. part_at l 3) same,
        ap (λ l. part_at l 5) same,
        ap (λ l. part_at l 7) same,
        ap (λ l. part_at l 9) same,
        ap (λ l. part_at l 11) same,
      )

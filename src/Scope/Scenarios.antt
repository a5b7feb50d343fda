-- ===== src/Scope/Scenarios.antt =====
-- Runs of the keys of go/runtime_scope.go.
use erdai_agent.Prelude.{◌≡◌, refl, arith}
use erdai_agent.Text.{trim_space, trim_space-trim_space}
use erdai_agent.Scope.Decimal.{itoa}
use erdai_agent.Scope.Keys.{
  RuntimeScope, normalized, bytes, conversation_parts, conversation_key, sender_key,
  memory_sender_ref, join_scope_parts,
}
use erdai_agent.Scope.Parts.{relationship_platform_sender_ref}
use erdai_agent.Scope.Isolation.{
  SameSender, platform_sender_ref-sender_key, memory_sender_ref-isolates,
}

abbrev group_scope : RuntimeScope
group_scope = record {
  agent_instance_id = "";
  memory_namespace = " team ";
  transport = "qq";
  transport_instance = "bot";
  conversation_ref = "g:1|";
  thread_key = "";
  sender_ref = "群友";
}

itoa_test : itoa 120 ≡ bytes "120"
unfolding itoa bytes
itoa_test = refl

key_test :
    conversation_key (λ t. t) group_scope
    ≡ bytes "6:memory|4:team|9:transport|2:qq|9:connector|3:bot|12:conversation|4:g:1||6:thread|0:|"
unfolding conversation_key normalized conversation_parts join_scope_parts itoa bytes trim_space
key_test = refl

platform_sender_ref-sender_key_example :
    relationship_platform_sender_ref
      (conversation_key (λ t. t) group_scope)
      (sender_key (λ t. t) group_scope)
    ≡ bytes "群友"
unfolding normalized conversation_parts bytes trim_space
platform_sender_ref-sender_key_example =
    platform_sender_ref-sender_key (λ t. t) trim_space-trim_space group_scope (omega arith)

memory_sender_ref-isolates_example :
    SameSender
      (normalized (λ t. t) group_scope)
      (normalized (λ t. t) (record group_scope { memory_namespace = "team" }))
unfolding normalized conversation_parts bytes trim_space memory_sender_ref sender_key
    conversation_key
memory_sender_ref-isolates_example =
    memory_sender_ref-isolates (λ t. t) trim_space-trim_space group_scope
      (record group_scope { memory_namespace = "team" }) (omega arith) (omega arith) refl refl refl

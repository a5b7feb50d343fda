-- ===== src/Knowledge/Namespaces.antt =====
-- `normalizeKnowledgeNamespaces` of go/rag_runtime.go: what it leaves, and that it leaves it alone.
use erdai_agent.Prelude.{
  false, ◌||◌, str_eq, String, List, [], ◌∷◌, ◌≡◌, refl, ap, Bool-cases, inl, inr,
}
use erdai_agent.Text.{trim_space, trim_space-trim_space}
use erdai_agent.Knowledge.Chunks.{contains_text, distinct_names, normalize_knowledge_namespaces}

-- each name is trimmed, not empty, and neither seen before nor earlier in the list
abbrev pub Normal : List String → List String → Type 0
Normal seen [] = Unit
Normal seen (n ∷ ns) =
    (trim_space n ≡ n) × ((str_eq n "" || contains_text n seen) ≡ false) × Normal (n ∷ seen) ns

distinct_names-Normal : (seen ns : List String) → Normal seen (distinct_names seen ns)
unfolding distinct_names
distinct_names-Normal seen [] = tt
distinct_names-Normal seen (n ∷ ns) =
    elim (Bool-cases (str_eq (trim_space n) "" || contains_text (trim_space n) seen)) [
      | inl y ↦ rw y (distinct_names-Normal seen ns)
      | inr m ↦ rw m (trim_space-trim_space n, m, distinct_names-Normal (trim_space n ∷ seen) ns)
    ]

Normal-fixed : (seen ns : List String) → Normal seen ns → distinct_names seen ns ≡ ns
unfolding distinct_names
Normal-fixed seen [] h = refl
Normal-fixed seen (n ∷ ns) h = rw (h.0, h.1) (ap (◌∷◌ n) (Normal-fixed (n ∷ seen) ns h.2))

-- The namespaces of a query, once normalized, are trimmed, not empty and pairwise different, and a
-- second normalization keeps them as they are.
pub normalize_knowledge_namespaces-Normal :
    (ns : List String)
    → Normal [] (normalize_knowledge_namespaces ns)
      × (normalize_knowledge_namespaces (normalize_knowledge_namespaces ns)
          ≡ normalize_knowledge_namespaces ns)
unfolding normalize_knowledge_namespaces
normalize_knowledge_namespaces-Normal ns = (
  distinct_names-Normal [] ns,
  Normal-fixed [] (distinct_names [] ns) (distinct_names-Normal [] ns),
)

-- ===== src/Knowledge/Scenarios.antt =====
-- Runs of the cut of a document of go/rag_runtime.go.
use erdai_agent.Prelude.{String, ◌≡◌, refl, arith, List, [], ◌∷◌, length, pos, negsuc}
use erdai_agent.Text.{trim_space}
use erdai_agent.Replies.Segments.{one_of, keep_units}
use erdai_agent.Knowledge.Chunks.{
  runes, text_of, last_stop, chunk_end, next_start, windows, slice, split_knowledge_content,
  chunk_size, chunk_overlap, contains_text, distinct_names, normalize_knowledge_namespaces,
}
use erdai_agent.Knowledge.Cover.{Covers, windows-end}
use erdai_agent.Knowledge.Namespaces.{Normal, normalize_knowledge_namespaces-Normal}

split_test : split_knowledge_content " ab.cdefgh" 6 1 ≡ "ab.cde" ∷ "efgh" ∷ []
unfolding split_knowledge_content windows chunk_end last_stop one_of next_start slice text_of
    keep_units runes trim_space
split_test = refl

windows-end_example :
    let value = runes (trim_space " short") in
    Covers (chunk_size (pos 10)) (length value) 0 0 (
      windows
        (length value)
        value
        (chunk_size (pos 10))
        (chunk_overlap (chunk_size (pos 10)) (negsuc 3))
        0)
unfolding runes trim_space
windows-end_example = windows-end " short" (pos 10) (negsuc 3) (omega arith)

abbrev names : List String
names = "a" ∷ " a " ∷ "" ∷ "b" ∷ []

names_test : normalize_knowledge_namespaces names ≡ "a" ∷ "b" ∷ []
unfolding normalize_knowledge_namespaces distinct_names contains_text trim_space
names_test = refl

normalize_knowledge_namespaces-Normal_example :
    Normal [] (normalize_knowledge_namespaces names)
    × (normalize_knowledge_namespaces (normalize_knowledge_namespaces names)
        ≡ normalize_knowledge_namespaces names)
normalize_knowledge_namespaces-Normal_example = normalize_knowledge_namespaces-Normal names

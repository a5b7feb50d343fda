-- ===== src/Knowledge/Chunks.antt =====
-- `splitKnowledgeContent` and `normalizeKnowledgeNamespaces` of go/rag_runtime.go, and what
-- `retrievalPolicy` of go/vector_search.go makes of the size and the overlap of the chunks.
use Prim.Native.Char.{Char, code}
use erdai_agent.Prelude.{
  ℕ, zero, suc, ◌+◌, ◌-◌, ◌*◌, ◌/◌, Bool, false, ◌||◌, if◌then◌else◌, ltb, leb, ◌==◌, str_eq,
  String, Option, none, some, List, [], ◌∷◌, length, take, drop, get_elem?, ℤ, pos, negsuc, map,
}
use erdai_agent.Text.{trim_space}
use erdai_agent.Replies.Segments.{one_of, keep_units}

-- `[]rune(text)` and `string(runes)`
unfoldable pub runes : String → List Char
runes String.[] = []
runes (String.◌∷◌ c s) = c ∷ runes s

unfoldable pub text_of : List Char → String
text_of [] = ""
text_of (c ∷ cs) = String.◌∷◌ c (text_of cs)

-- the runes of "\n。！？；.!?;"
abbrev pub stops : List ℕ
stops = 10 ∷ 0x3002 ∷ 0xff01 ∷ 0xff1f ∷ 0xff1b ∷ 0x2e ∷ 0x21 ∷ 0x3f ∷ 0x3b ∷ []

abbrev pub is_stop : Option Char → Bool
is_stop none = false
is_stop (some c) = one_of (code c) stops

-- `for index := end; index > floor; index--`, over the indexes above the floor: the first one behind
-- a stop, and the end where there is none
unfoldable pub last_stop : List Char → ℕ → ℕ → ℕ → ℕ
unfolding one_of
last_stop value floor zero end = end
last_stop value floor (suc k) end =
    let rest = last_stop value floor k end in
    if is_stop (get_elem? value (floor + k)) then floor + suc k else rest

-- the end of a chunk that begins at `start`
unfoldable pub chunk_end : List Char → ℕ → ℕ → ℕ
unfolding last_stop
chunk_end value size start =
    let end = start + size in
    let floor = start + size * 2 / 3 in
    if leb (length value) end then length value else last_stop value floor (end - floor) end

-- the start of the next chunk; below zero the difference is not above the start either
unfoldable pub next_start : ℕ → ℕ → ℕ → ℕ
next_start overlap start end = if leb (end - overlap) start then end else end - overlap

-- the loop: the bounds of the chunks; the fuel bounds its rounds
unfoldable pub windows : ℕ → List Char → ℕ → ℕ → ℕ → List (ℕ × ℕ)
unfolding chunk_end next_start
windows zero value size overlap start = []
windows (suc fuel) value size overlap start =
    let end = chunk_end value size start in
    let rest = windows fuel value size overlap (next_start overlap start end) in
    if ltb start (length value)
    then (start, end) ∷ (if end == length value then [] else rest)
    else []

-- `string(value[start:end])`
unfoldable pub slice : List Char → ℕ × ℕ → String
unfolding text_of
slice value (start, end) = text_of (take (end - start) (drop start value))

-- each chunk trimmed, the empty ones left out; a round at most for each rune
unfoldable pub split_knowledge_content : String → ℕ → ℕ → List String
unfolding windows slice keep_units runes
split_knowledge_content content size overlap =
    let value = runes (trim_space content) in
    keep_units (map (slice value) (windows (length value) value size overlap 0))

-- the size and the overlap that a policy ends up with
unfoldable pub chunk_size : ℤ → ℕ
chunk_size (negsuc n) = 900
chunk_size (pos n) = if ltb n 200 || ltb 4000 n then 900 else n

unfoldable pub chunk_overlap : ℕ → ℤ → ℕ
chunk_overlap size (negsuc n) = 140
chunk_overlap size (pos n) = if leb (size / 2) n then 140 else n

unfoldable pub contains_text : String → List String → Bool
contains_text t [] = false
contains_text t (u ∷ us) = str_eq u t || contains_text t us

-- the loop of `normalizeKnowledgeNamespaces`, with the names that it has seen
unfoldable pub distinct_names : List String → List String → List String
unfolding contains_text
distinct_names seen [] = []
distinct_names seen (n ∷ ns) =
    let name = trim_space n in
    let known = str_eq name "" || contains_text name seen in
    let rest = distinct_names (if known then seen else name ∷ seen) ns in
    if known then rest else name ∷ rest

-- `normalizeKnowledgeNamespaces`
unfoldable pub normalize_knowledge_namespaces : List String → List String
unfolding distinct_names
normalize_knowledge_namespaces namespaces = distinct_names [] namespaces

-- ===== src/Scope/Parts.antt =====
-- `relationshipPlatformSenderRef` of go/runtime_scope.go: it reads twelve parts back out of a scoped
-- sender and answers the last one. A reference is the list of its bytes.
use erdai_agent.Prelude.{
  ℕ, zero, suc, ◌==◌, ltb, Bool, false, ◌&&◌, if◌then◌else◌, Option, none, some, List, [], ◌∷◌,
  length, take, drop, get_elem?, ℤ, pos, negsuc,
}
use erdai_agent.Wechat.Frame.{same_bytes, is_empty}
use erdai_agent.Scope.Decimal.{atoi}
use erdai_agent.Scope.Keys.{bytes, join_scope_parts}

abbrev before : ℕ → Option (List ℕ × List ℕ) → Option (List ℕ × List ℕ)
before b none = none
before b (some (bs, cs)) = some (b ∷ bs, cs)

-- `strings.Cut(remaining, ":")`
unfoldable pub cut : List ℕ → Option (List ℕ × List ℕ)
cut [] = none
cut (b ∷ bs) = let rest = cut bs in if b == 58 then some ([], bs) else before b rest

abbrev pub then_some {ℓ κ} : {A : Type ℓ} {B : Type κ} → Option A → (A → Option B) → Option B
then_some none next = none
then_some (some a) next = next a

-- a length that is not negative
abbrev pub count_of : ℤ → Option ℕ
count_of (pos n) = some n
count_of (negsuc n) = none

-- the byte behind the part is '|'
abbrev closed : Option ℕ → Bool
closed none = false
closed (some b) = b == 124

-- `length < len(value)` and `value[length] == '|'`: the part and what is behind it
unfoldable pub take_part : List ℕ → ℕ → Option (List ℕ × List ℕ)
take_part value n =
    if ltb n (length value) && closed (get_elem? value n)
    then some (take n value, drop (suc n) value)
    else none

-- one round of the loop
unfoldable pub read_part : List ℕ → Option (List ℕ × List ℕ)
unfolding cut take_part
read_part remaining = then_some (cut remaining) λ p.
    if is_empty p.0
    then none
    else then_some (atoi p.0) λ i. then_some (count_of i) λ n. take_part p.1 n

abbrev pub with_part : List ℕ → Option (List (List ℕ) × List ℕ) → Option (List (List ℕ) × List ℕ)
with_part part none = none
with_part part (some (parts, rest)) = some (part ∷ parts, rest)

-- `none` where the loop returns early
unfoldable pub read_parts : ℕ → List ℕ → Option (List (List ℕ) × List ℕ)
read_parts zero remaining = some ([], remaining)
read_parts (suc k) remaining = then_some (read_part remaining) λ p. with_part p.0 (read_parts k p.1)

-- `parts[i]`, of twelve parts
abbrev pub part_at : List (List ℕ) → ℕ → List ℕ
part_at [] i = []
part_at (p ∷ ps) zero = p
part_at (p ∷ ps) (suc i) = part_at ps i

-- the checks of the twelve parts
unfoldable pub platform_parts : List ℕ → List (List ℕ) → List ℕ → Bool
platform_parts conversation_ref parts remaining =
    is_empty remaining
    && same_bytes (part_at parts 0) (bytes "memory")
    && same_bytes (part_at parts 2) (bytes "transport")
    && same_bytes (part_at parts 4) (bytes "connector")
    && same_bytes (part_at parts 6) (bytes "conversation")
    && same_bytes (part_at parts 8) (bytes "thread")
    && same_bytes (part_at parts 10) (bytes "sender")
    && same_bytes (join_scope_parts (take 10 parts)) conversation_ref

abbrev pub answer : List ℕ → List ℕ → Option (List (List ℕ) × List ℕ) → List ℕ
answer conversation_ref sender_ref none = sender_ref
answer conversation_ref sender_ref (some (parts, remaining)) =
    if platform_parts conversation_ref parts remaining then part_at parts 11 else sender_ref

unfoldable pub relationship_platform_sender_ref : List ℕ → List ℕ → List ℕ
unfolding platform_parts
relationship_platform_sender_ref conversation_ref sender_ref =
    answer conversation_ref sender_ref (read_parts 12 sender_ref)

-- ===== src/Scope/RoundTrip.antt =====
-- What go/runtime_scope.go joins, it reads back: the parts of a key are determined by the key.
use mathlib.Core.List.{append_assoc, append-nil}
use erdai_agent.Prelude.{
  ℕ, suc, ◌+◌, ◌≤◌, ◌==◌, ltb, true, false, if◌then◌else◌, Option, none, some, List, [], ◌∷◌, ◌++◌,
  length, drop, get_elem?, All, ◌≡◌, refl, arith, sym, ap, ◌∙◌, if_false, length-append,
  take-length,
}
use erdai_agent.Wechat.Frame.{is_empty}
use erdai_agent.Scope.Decimal.{itoa, atoi, max_int, Digit, atoi-itoa, itoa-Digit, itoa-cons}
use erdai_agent.Scope.Keys.{join_scope_parts}
use erdai_agent.Scope.Parts.{cut, then_some, count_of, take_part, read_part, with_part, read_parts}

not_colon : (b : ℕ) → Digit b → (b == 58) ≡ false
not_colon b h = ground arith

cut-digits : (ds rest : List ℕ) → All Digit ds → cut (ds ++ (58 ∷ rest)) ≡ some (ds, rest)
unfolding cut
cut-digits [] rest h = refl
cut-digits (d ∷ ds) rest h = rw (not_colon d h.0, cut-digits ds rest h.1) refl

at-length : (part rest : List ℕ) (b : ℕ) → get_elem? (part ++ (b ∷ rest)) (length part) ≡ some b
at-length [] rest b = refl
at-length (p ∷ part) rest b = at-length part rest b

after-length : (part rest : List ℕ) (b : ℕ) → drop (suc (length part)) (part ++ (b ∷ rest)) ≡ rest
after-length [] rest b = refl
after-length (p ∷ part) rest b = after-length part rest b

take_part-length :
    (part rest : List ℕ) → take_part (part ++ (124 ∷ rest)) (length part) ≡ some (part, rest)
unfolding take_part
take_part-length part rest =
    let fits : ltb (length part) (length (part ++ (124 ∷ rest))) ≡ true =
      less (length part) _ (length rest) (length-append part (124 ∷ rest)) in
    rw (fits, at-length part rest 124, take-length part (124 ∷ rest), after-length part rest 124)
      refl
  where
    less : (m n k : ℕ) → n ≡ m + suc k → ltb m n ≡ true
    less m n k e = ground arith

-- a part that a Go string can hold
abbrev pub Short : List ℕ → Type 0
Short part = length part ≤ max_int

itoa-not_empty : (n : ℕ) → is_empty (itoa n) ≡ false
itoa-not_empty n = let (d, ds, q) = itoa-cons n in rw q refl

abbrev rest_of_part : List ℕ × List ℕ → Option (List ℕ × List ℕ)
rest_of_part p =
    if is_empty p.0
    then none
    else then_some (atoi p.0) λ i. then_some (count_of i) λ n. take_part p.1 n

read_part-join :
    (part rest : List ℕ)
    → Short part
    → read_part (itoa (length part) ++ (58 ∷ (part ++ (124 ∷ rest)))) ≡ some (part, rest)
unfolding read_part
read_part-join part rest h =
    let value = part ++ (124 ∷ rest) in
    let ds = itoa (length part) in
    let digits = cut-digits ds value (itoa-Digit (length part)) in
    let r : rest_of_part (ds, value) ≡ take_part value (length part) =
      if_false _ _ _ (itoa-not_empty (length part))
      ∙ ap (λ o. then_some o λ i. then_some (count_of i) λ n. take_part value n)
          (atoi-itoa (length part) h) in
    ap (λ o. then_some o rest_of_part) digits ∙ r ∙ take_part-length part rest

join-shift :
    (part : List ℕ) (parts : List (List ℕ)) (rest : List ℕ)
    → join_scope_parts (part ∷ parts) ++ rest
      ≡ itoa (length part) ++ (58 ∷ (part ++ (124 ∷ (join_scope_parts parts ++ rest))))
unfolding join_scope_parts
join-shift part parts rest =
    append_assoc (itoa (length part)) (58 ∷ (part ++ (124 ∷ join_scope_parts parts))) rest
    ∙ ap (λ l. itoa (length part) ++ (58 ∷ l))
        (append_assoc part (124 ∷ join_scope_parts parts) rest)

read_parts-join :
    (parts : List (List ℕ)) (rest : List ℕ)
    → All Short parts
    → read_parts (length parts) (join_scope_parts parts ++ rest) ≡ some (parts, rest)
unfolding read_parts join_scope_parts
read_parts-join [] rest h = refl
read_parts-join (part ∷ parts) rest h =
    let more = join_scope_parts parts ++ rest in
    let step : read_part (join_scope_parts (part ∷ parts) ++ rest) ≡ some (part, more) =
      ap read_part (join-shift part parts rest) ∙ read_part-join part more h.0 in
    ap (λ o. then_some o λ p. with_part p.0 (read_parts (length parts) p.1)) step
    ∙ ap (with_part part) (read_parts-join parts rest h.1)

pub join-append :
    (ps qs : List (List ℕ))
    → join_scope_parts (ps ++ qs) ≡ join_scope_parts ps ++ join_scope_parts qs
unfolding join_scope_parts
join-append [] qs = refl
join-append (p ∷ ps) qs =
    ap (λ l. itoa (length p) ++ (58 ∷ (p ++ (124 ∷ l)))) (join-append ps qs)
    ∙ sym (join-shift p ps (join_scope_parts qs))

-- the parts of a whole text
pub read_parts-whole :
    (parts : List (List ℕ))
    → All Short parts
    → read_parts (length parts) (join_scope_parts parts) ≡ some (parts, [])
read_parts-whole parts h =
    ap (read_parts (length parts)) (sym (append-nil (join_scope_parts parts)))
    ∙ read_parts-join parts [] h

-- as many parts that join to the same bytes are the same parts
pub join_scope_parts-injective :
    (ps qs : List (List ℕ))
    → All Short ps
    → All Short qs
    → length ps ≡ length qs
    → join_scope_parts ps ≡ join_scope_parts qs
    → ps ≡ qs
join_scope_parts-injective ps qs h k n e =
    let same : some (ps, []) ≡ some (qs, []) =
      sym (read_parts-whole ps h)
      ∙ ap (λ m. read_parts m (join_scope_parts ps)) n
      ∙ ap (read_parts (length qs)) e
      ∙ read_parts-whole qs k in
    ap parts_of same
  where
    parts_of : Option (List (List ℕ) × List ℕ) → List (List ℕ)
    parts_of none = []
    parts_of (some p) = p.0

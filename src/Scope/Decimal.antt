-- ===== src/Scope/Decimal.antt =====
-- `strconv.Itoa` and `strconv.Atoi`, on bytes, as go/runtime_scope.go uses them.
use mathlib.Core.List.{append_assoc, append-nil}
use erdai_agent.Prelude.{
  All-append, ℕ, zero, suc, ◌+◌, ◌-◌, ◌*◌, ◌/◌, ◌%◌, ◌<◌, ◌≤◌, leb, ltb, ◌==◌, Bool, true, false,
  ◌&&◌, if◌then◌else◌, Option, none, some, List, [], ◌∷◌, ◌++◌, ℤ, pos, neg, All, ◌≡◌, refl, arith,
  Bool-cases, inl, inr, sym, ap, subst, ◌∙◌, if_true, if_false,
}

-- the digits of a number, the highest first; the fuel bounds their count
unfoldable pub digits : ℕ → ℕ → List ℕ
digits zero n = (48 + n % 10) ∷ []
digits (suc fuel) n = elim (ltb n 10) [
  | true ↦ (48 + n) ∷ []
  | false ↦ digits fuel (n / 10) ++ ((48 + n % 10) ∷ [])
]

-- `strconv.Itoa(n)`, of a count
unfoldable pub itoa : ℕ → List ℕ
unfolding digits
itoa n = digits n n

abbrev pub is_digit : ℕ → Bool
is_digit b = leb 48 b && leb b 57

unfoldable pub read_digits : ℕ → List ℕ → Option ℕ
read_digits acc [] = some acc
read_digits acc (b ∷ bs) = if is_digit b then read_digits (acc * 10 + (b - 48)) bs else none

abbrev pub max_int : ℕ
max_int = 9_223_372_036_854_775_807

-- at least one digit, and a value in the range of the sign
unfoldable pub read_magnitude : ℕ → List ℕ → Option ℕ
unfolding read_digits
read_magnitude limit [] = none
read_magnitude limit (b ∷ bs) = elim (read_digits 0 (b ∷ bs)) [
  | none ↦ none
  | some n ↦ if leb n limit then some n else none
]

abbrev negated : Option ℕ → Option ℤ
negated none = none
negated (some n) = some (neg (pos n))

abbrev pub as_int : Option ℕ → Option ℤ
as_int none = none
as_int (some n) = some (pos n)

-- `strconv.Atoi`, `none` for an error
unfoldable pub atoi : List ℕ → Option ℤ
unfolding read_magnitude
atoi [] = none
atoi (b ∷ bs) =
    if b == 45
    then negated (read_magnitude (suc max_int) bs)
    else if b == 43
    then as_int (read_magnitude max_int bs)
    else as_int (read_magnitude max_int (b ∷ bs))

abbrev pub Digit : ℕ → Type 0
Digit b = is_digit b ≡ true

unit-Digit : (n : ℕ) → n < 10 → Digit (48 + n)
unit-Digit n h = ground arith

last-Digit : (n : ℕ) → Digit (48 + n % 10)
last-Digit n = unit-Digit (n % 10) (omega arith)

digits-Digit : (fuel n : ℕ) → All Digit (digits fuel n)
unfolding digits
digits-Digit zero n = (last-Digit n, tt)
digits-Digit (suc fuel) n = elim (Bool-cases (ltb n 10)) [
  | inl y ↦ rw (y, digits) (unit-Digit n (ground arith), tt)
  | inr x ↦ rw (x, digits) (All-append Digit _ _ (digits-Digit fuel (n / 10)) (last-Digit n, tt))
]

read-digit :
    (acc n : ℕ) (bs : List ℕ)
    → n < 10
    → read_digits acc ((48 + n) ∷ bs) ≡ read_digits (acc * 10 + n) bs
unfolding read_digits
read-digit acc n bs h = if_true _ _ _ (unit-Digit n h) ∙ ap (λ m. read_digits m bs) (omega arith)

read-digits :
    (fuel n : ℕ) (bs : List ℕ) → n ≤ fuel → read_digits 0 (digits fuel n ++ bs) ≡ read_digits n bs
unfolding digits
read-digits zero n bs h =
    read-digit 0 (n % 10) bs (omega arith) ∙ ap (λ m. read_digits m bs) (omega arith)
read-digits (suc fuel) n bs h = elim (Bool-cases (ltb n 10)) [
  | inl y ↦
      rw (y, digits) (read-digit 0 n bs (ground arith) ∙ ap (λ m. read_digits m bs) (omega arith))
  | inr x ↦
      rw (x, digits)
        (ap (read_digits 0) (append_assoc (digits fuel (n / 10)) ((48 + n % 10) ∷ []) bs)
          ∙ read-digits fuel (n / 10) ((48 + n % 10) ∷ bs) (ground arith)
          ∙ read-digit (n / 10) (n % 10) bs (omega arith)
          ∙ ap (λ m. read_digits m bs) (omega arith))
]

digits-cons : (fuel n : ℕ) → (d : ℕ) × (ds : List ℕ) × (digits fuel n ≡ d ∷ ds)
unfolding digits
digits-cons zero n = ((48 + n % 10), [], refl)
digits-cons (suc fuel) n = elim (Bool-cases (ltb n 10)) [
  | inl y ↦ ((48 + n), [], rw (y, digits) refl)
  | inr x ↦
      let (d, ds, q) = digits-cons fuel (n / 10) in
      (d, ds ++ ((48 + n % 10) ∷ []), rw (x, digits) (ap (λ l. l ++ ((48 + n % 10) ∷ [])) q))
]

not_sign : (b : ℕ) → Digit b → ((b == 45) ≡ false) × ((b == 43) ≡ false)
not_sign b h = ground arith

read_magnitude-some :
    (limit b : ℕ) (ds : List ℕ) (n : ℕ)
    → read_digits 0 (b ∷ ds) ≡ some n
    → n ≤ limit
    → read_magnitude limit (b ∷ ds) ≡ some n
unfolding read_magnitude
read_magnitude-some limit b ds n r h =
    rw (r, read_magnitude) (if_true (leb n limit) (some n) none (ground arith))

atoi-digits :
    (bs : List ℕ) (n : ℕ)
    → All Digit bs
    → (b : ℕ) (ds : List ℕ) → bs ≡ b ∷ ds
    → read_digits 0 bs ≡ some n
    → n ≤ max_int
    → atoi bs ≡ some (pos n)
unfolding atoi
atoi-digits bs n all b ds q r h =
    let q' : Digit b = (subst (All Digit) q all).0 in
    let (minus, plus) = not_sign b q' in
    let r' : read_digits 0 (b ∷ ds) ≡ some n = ap (read_digits 0) (sym q) ∙ r in
    ap atoi q
    ∙ if_false _ _ _ minus
    ∙ if_false _ _ _ plus
    ∙ ap as_int (read_magnitude-some max_int b ds n r' h)

-- Atoi reads what Itoa wrote
pub atoi-itoa : (n : ℕ) → n ≤ max_int → atoi (itoa n) ≡ some (pos n)
unfolding itoa read_digits
atoi-itoa n h =
    let (d, ds, q) = digits-cons n n in
    atoi-digits (digits n n) n (digits-Digit n n) d ds q
      (ap (read_digits 0) (sym (append-nil (digits n n))) ∙ read-digits n n [] (omega arith)) h

pub itoa-Digit : (n : ℕ) → All Digit (itoa n)
unfolding itoa
itoa-Digit n = digits-Digit n n

pub itoa-cons : (n : ℕ) → (d : ℕ) × (ds : List ℕ) × (itoa n ≡ d ∷ ds)
unfolding itoa
itoa-cons n = digits-cons n n

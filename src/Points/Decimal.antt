-- ===== src/Points/Decimal.antt =====
-- The decimal numbers in the reference keys of the ledger: what `%d` writes and what SQLite's
-- `CAST(… AS INTEGER)` reads.
use Prim.Native.Char.{Char, code}
use Prim.Native.String.{◌++◌}
use text.Mathlib.TextLemmas.{nil-append, cons-append, append-nil, append_assoc}
use erdai_agent.Prelude.{
  ℕ, zero, suc, ◌+◌, ◌-◌, ◌*◌, ◌/◌, ◌%◌, ◌≤◌, ◌<◌, leb, ltb, ◌==◌, true, false, ◌&&◌, ◌||◌,
  if◌then◌else◌, String, ℤ, pos, neg, ◌≡◌, refl, arith, Bool-cases, inl, inr, ap, sym, ◌∙◌, if_true,
  if_false,
}

digit_char : ℕ → Char
digit_char zero = "0"
digit_char (suc zero) = "1"
digit_char (suc (suc zero)) = "2"
digit_char (suc (suc (suc zero))) = "3"
digit_char (suc (suc (suc (suc zero)))) = "4"
digit_char (suc (suc (suc (suc (suc zero))))) = "5"
digit_char (suc (suc (suc (suc (suc (suc zero)))))) = "6"
digit_char (suc (suc (suc (suc (suc (suc (suc zero))))))) = "7"
digit_char (suc (suc (suc (suc (suc (suc (suc (suc zero)))))))) = "8"
digit_char _ = "9"

abbrev digit : ℕ → String
digit d = String.◌∷◌ (digit_char d) ""

-- the fuel bounds the count of the digits
unfoldable pub decimal_digits : ℕ → ℕ → String
unfolding digit_char
decimal_digits zero n = digit (n % 10)
decimal_digits (suc fuel) n = elim (ltb n 10) [
  | true ↦ digit n
  | false ↦ decimal_digits fuel (n / 10) ++ digit (n % 10)
]

-- `%d` of a count
unfoldable pub decimal : ℕ → String
unfolding decimal_digits
decimal n = decimal_digits n n

-- the digits in front of a text
unfoldable pub leading_number : ℕ → String → ℕ
leading_number acc String.[] = acc
leading_number acc (String.◌∷◌ c s) =
    let rest = leading_number (acc * 10 + (code c - 48)) s in
    if leb 48 (code c) && leb (code c) 57 then rest else acc

abbrev pub max_integer : ℕ
max_integer = 9_223_372_036_854_775_807

abbrev clamp : ℕ → ℕ → ℕ
clamp limit n = if ltb limit n then limit else n

-- a sign, then the digits; what is too large is the largest
unfoldable pub signed_number : String → ℤ
unfolding leading_number
signed_number String.[] = pos 0
signed_number (String.◌∷◌ c s) =
    if code c == 45
    then neg (pos (clamp (suc max_integer) (leading_number 0 s)))
    else if code c == 43
    then pos (clamp max_integer (leading_number 0 s))
    else pos (clamp max_integer (leading_number 0 (String.◌∷◌ c s)))

-- `CAST(text AS INTEGER)`
unfoldable pub cast_integer : String → ℤ
unfolding signed_number
cast_integer String.[] = pos 0
cast_integer (String.◌∷◌ c s) =
    let rest = cast_integer s in
    if code c == 32 || (leb 9 (code c) && leb (code c) 13)
    then rest
    else signed_number (String.◌∷◌ c s)

digit-code : (d : ℕ) → d < 10 → code (digit_char d) ≡ 48 + d
unfolding digit_char
digit-code zero h = refl
digit-code (suc zero) h = refl
digit-code (suc (suc zero)) h = refl
digit-code (suc (suc (suc zero))) h = refl
digit-code (suc (suc (suc (suc zero)))) h = refl
digit-code (suc (suc (suc (suc (suc zero))))) h = refl
digit-code (suc (suc (suc (suc (suc (suc zero)))))) h = refl
digit-code (suc (suc (suc (suc (suc (suc (suc zero))))))) h = refl
digit-code (suc (suc (suc (suc (suc (suc (suc (suc zero)))))))) h = refl
digit-code (suc (suc (suc (suc (suc (suc (suc (suc (suc zero))))))))) h = refl
digit-code (suc (suc (suc (suc (suc (suc (suc (suc (suc (suc d)))))))))) h = absurd (omega arith)

read-digit_char :
    (acc d : ℕ) (s : String)
    → d < 10
    → leading_number acc (String.◌∷◌ (digit_char d) s) ≡ leading_number (acc * 10 + d) s
unfolding leading_number
read-digit_char acc d s h =
    let q = digit-code d h in
    if_true _ _ _ (in_range (code (digit_char d)) d q h)
    ∙ ap (λ m. leading_number (acc * 10 + m) s) (omega arith)
  where
    in_range : (c k : ℕ) → c ≡ 48 + k → k < 10 → (leb 48 c && leb c 57) ≡ true
    in_range c k e l = ground arith

read-digit :
    (acc d : ℕ) (s : String)
    → d < 10
    → leading_number acc (digit d ++ s) ≡ leading_number (acc * 10 + d) s
read-digit acc d s h =
    ap (leading_number acc)
      (cons-append (digit_char d) "" s ∙ ap (String.◌∷◌ (digit_char d)) (nil-append s))
    ∙ read-digit_char acc d s h

read-decimal_digits :
    (fuel n : ℕ) (s : String)
    → n ≤ fuel
    → leading_number 0 (decimal_digits fuel n ++ s) ≡ leading_number n s
unfolding decimal_digits
read-decimal_digits zero n s h =
    read-digit 0 (n % 10) s (omega arith) ∙ ap (λ m. leading_number m s) (omega arith)
read-decimal_digits (suc fuel) n s h = elim (Bool-cases (ltb n 10)) [
  | inl y ↦
      rw (y, decimal_digits)
        (read-digit 0 n s (ground arith) ∙ ap (λ m. leading_number m s) (omega arith))
  | inr x ↦
      rw (x, decimal_digits)
        (ap (leading_number 0) (append_assoc (decimal_digits fuel (n / 10)) (digit (n % 10)) s)
          ∙ read-decimal_digits fuel (n / 10) (digit (n % 10) ++ s) (ground arith)
          ∙ read-digit (n / 10) (n % 10) s (omega arith)
          ∙ ap (λ m. leading_number m s) (omega arith))
]

read_nothing : (n : ℕ) → leading_number n "" ≡ n
unfolding leading_number
read_nothing n = refl

-- the first character is a digit
first_digit :
    (fuel n : ℕ)
    → (d : ℕ) × (s : String) × (d < 10) × (decimal_digits fuel n ≡ String.◌∷◌ (digit_char d) s)
unfolding decimal_digits
first_digit zero n = (n % 10, "", omega arith, refl)
first_digit (suc fuel) n = elim (Bool-cases (ltb n 10)) [
  | inl y ↦ (n, "", ground arith, rw (y, decimal_digits) refl)
  | inr x ↦
      let (d, s, l, q) = first_digit fuel (n / 10) in
      (
        d,
        s ++ digit (n % 10),
        l,
        rw (x, decimal_digits)
            (ap (λ t. t ++ digit (n % 10)) q ∙ cons-append (digit_char d) s (digit (n % 10))),
      )
]

cast-digits :
    (d n : ℕ) (s : String)
    → d < 10
    → n ≤ max_integer
    → leading_number 0 (String.◌∷◌ (digit_char d) s) ≡ n
    → cast_integer (String.◌∷◌ (digit_char d) s) ≡ pos n
unfolding cast_integer signed_number
cast-digits d n s l h q =
    let (no_space, minus, plus) = not_other (code (digit_char d)) d (digit-code d l) l in
    if_false _ _ _ no_space
    ∙ if_false _ _ _ minus
    ∙ if_false _ _ _ plus
    ∙ ap (λ m. pos (clamp max_integer m)) q
    ∙ ap pos (if_false _ _ _ (small n h))
  where
    not_other :
        (c k : ℕ)
        → c ≡ 48 + k
        → k < 10
        → ((c == 32 || (leb 9 c && leb c 13)) ≡ false) × ((c == 45) ≡ false) × ((c == 43) ≡ false)
    not_other c k e l = ground arith

    small : (m : ℕ) → m ≤ max_integer → ltb max_integer m ≡ false
    small m k = ground arith

-- what was written is read
pub cast_integer-decimal : (n : ℕ) → n ≤ max_integer → cast_integer (decimal n) ≡ pos n
unfolding decimal
cast_integer-decimal n h =
    let (d, s, l, q) = first_digit n n in
    let whole : leading_number 0 (decimal_digits n n) ≡ n =
      ap (leading_number 0) (sym (append-nil (decimal_digits n n)))
      ∙ read-decimal_digits n n "" (omega arith)
      ∙ read_nothing n in
    ap cast_integer q ∙ cast-digits d n s l h (ap (leading_number 0) (sym q) ∙ whole)

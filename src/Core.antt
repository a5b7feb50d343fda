-- ===== src/Core.antt =====
-- What the components share: the errors that an operation returns, the chain of fallible steps,
-- the environment of a call (clock, identifiers, cipher) and `normalizeCoreText` of
-- go/config_store.go.
use Prim.Native.Char.{code}
use Prim.Native.String.{count, ◌++◌}
use erdai_agent.Text.{trim_space}
use erdai_agent.Prelude.{
  ℕ, Bool, true, false, ◌&&◌, ◌||◌, Option, none, some, String, leb, ltb, ◌==◌, str_eq,
  if◌then◌else◌, ◌≡◌, refl,
}

-- The classes of error that a caller tells apart; the text is the message or the code.
pub data Error : Type 0 where
  invalid : String → Error
  not_found : String → Error
  conflict : String → Error
  failed : String → Error

pub data Result {κ} (Value : Type κ) : Type κ where
  err : Error → Result Value
  ok : Value → Result Value

-- the row that a query has to find
abbrev pub or_fail {κ} : {Value : Type κ} → Option Value → Error → Result Value
or_fail (some v) e = ok v
or_fail none e = err e

-- an early return
abbrev pub guard : Bool → Error → Result (Unit {0})
guard false e = err e
guard true e = ok tt

infixl 5 ◌>>=◌ ◌>>◌
abbrev pub ◌>>=◌ {κ ι} :
    {Value : Type κ} {Next : Type ι} → Result Value → (Value → Result Next) → Result Next
err e >>= next = err e
ok v >>= next = next v

abbrev pub ◌>>◌ {ι} : {Next : Type ι} → Result (Unit {0}) → Result Next → Result Next
m >> rest = m >>= λ done. rest

-- A chain that succeeds succeeded in each step.
pub >>=-eq-ok {κ ι} :
    {Value : Type κ} {Next : Type ι} (m : Result Value) (next : Value → Result Next) {n : Next}
    → (m >>= next) ≡ ok n
    → (v : Value) × (m ≡ ok v) × (next v ≡ ok n)
>>=-eq-ok (err e) next h = cc
>>=-eq-ok (ok v) next h = (v, refl, h)

pub or_fail-eq-ok {ℓ} :
    {A : Type ℓ} (o : Option A) (x : Error) {a : A} → or_fail o x ≡ ok a → o ≡ some a
or_fail-eq-ok none x h = cc
or_fail-eq-ok (some a) x h = cc

pub guard-eq-ok : (b : Bool) (x : Error) → guard b x ≡ ok tt → b ≡ true
guard-eq-ok true x h = refl
guard-eq-ok false x h = cc

-- A stored time: the text of the column, and the instant (in nanoseconds) that the text denotes.
pub record Stamp : Type 0 where
  pub text : String
  pub instant : ℕ

-- What a call reads of the world: the clock, Go's formatting and parsing of RFC 3339 times, the
-- next random identifier, the cipher (`none` where no key is configured) and `strings.ToLower`.
pub record Env : Type 0 where
  pub now : ℕ
  pub format_time : ℕ → String
  pub parse_time : String → Option ℕ
  pub new_id : Option String
  pub aead : Bool
  pub encrypt : String → Option String
  pub lower : String → String

abbrev pub stamp : Env → ℕ → Stamp
stamp e t = record { text = e.format_time t; instant = t }

abbrev pub now_stamp : Env → Stamp
now_stamp e = stamp e e.now

abbrev pub second : ℕ
second = 1_000_000_000

abbrev pub minute : ℕ
minute = 60_000_000_000

abbrev pub hour : ℕ
hour = 3_600_000_000_000

-- the characters that `strings.Map` drops
is_control : ℕ → Bool
is_control r = leb r 8 || r == 11 || r == 12 || (leb 14 r && leb r 31) || r == 127

drop_controls : String → String
unfolding is_control
drop_controls String.[] = ""
drop_controls (String.◌∷◌ c s) =
    let rest = drop_controls s in if is_control (code c) then rest else String.◌∷◌ c rest

unfoldable pub normalize_core_text : String → String → ℕ → Bool → Result String
unfolding drop_controls trim_space
normalize_core_text value name maximum required =
    let value' = trim_space (drop_controls value) in
    if required && str_eq value' ""
    then err (invalid (name ++ " is required"))
    else if ltb maximum (count value')
    then err (invalid (name ++ " is too long"))
    else ok value'

normalize_test : normalize_core_text "  a\u{1}b " "goal" 8 true ≡ ok "ab"
unfolding normalize_core_text
normalize_test = refl

-- ===== src/Prelude/Texts.antt =====
-- The order of texts by their bytes, as an `ORDER BY` over a text column compares.
use Prim.Native.String.compare
use Prim.Native.String.{String, [], ◌∷◌, compare}
use text.Mathlib.Text.{is_lt}
use mathlib.Core.Path.{◌≡◌}
use mathlib.Core.Logic.{◌⊎◌, inr}
use mathlib.Core.Bool.{Bool, true, false}
use native.Mathlib.Omega.{arith}

abbrev pub text_lt : String → String → Bool
text_lt a b = is_lt (compare a b)

pub text_lt_asym : (a b : String) → text_lt a b ≡ true → text_lt b a ≡ false
text_lt_asym [] [] h = ground (arith, compare.nil-nil)
text_lt_asym [] (d ∷ t) h = ground (arith, compare.cons-nil d t)
text_lt_asym (c ∷ s) [] h = ground (arith, compare.cons-nil c s)
text_lt_asym (c ∷ s) (d ∷ t) h =
    ground (arith, compare.cons-cons c d s t, compare.cons-cons d c t s, text_lt_asym s t)

pub text_lt_split :
    (a b c : String) → text_lt a c ≡ true → (text_lt a b ≡ true) ⊎ (text_lt b c ≡ true)
text_lt_split [] [] c h = inr h
text_lt_split [] (d ∷ t) c h = ground (arith, compare.nil-cons d t)
text_lt_split (x ∷ s) b [] h = ground (arith, compare.cons-nil x s)
text_lt_split (x ∷ s) [] (z ∷ u) h = ground (arith, compare.nil-cons z u)
text_lt_split (x ∷ s) (y ∷ t) (z ∷ u) h = ground (
  arith,
  compare.cons-cons x z s u,
  compare.cons-cons x y s t,
  compare.cons-cons y z t u,
  text_lt_split s t u,
)

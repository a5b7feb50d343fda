-- ===== src/Text/Ink.antt =====
-- The characters of a text that are no space: what a trim keeps.
use Prim.Native.Char.{Char, code}
use Prim.Native.String.{String, ◌++◌}
use text.Mathlib.TextLemmas.{nil-append, cons-append}
use erdai_agent.Prelude.{
  if◌then◌else◌, ◌≡◌, refl, sym, ap, ◌∙◌, Bool-cases, inl, inr, if_true, if_false,
}
use erdai_agent.Text.{is_space, trim_left, keep_nonempty, trim_right, trim_space}

-- the text without its spaces
unfoldable pub ink : String → String
ink String.[] = ""
ink (String.◌∷◌ c s) = let rest = ink s in if is_space (code c) then rest else String.◌∷◌ c rest

pub ink-cons :
    (c : Char) (s t : String) → ink s ≡ ink t → ink (String.◌∷◌ c s) ≡ ink (String.◌∷◌ c t)
unfolding ink
ink-cons c s t h = rw h refl

pub ink-append : (s t : String) → ink (s ++ t) ≡ ink s ++ ink t
unfolding ink
ink-append String.[] t = ap ink (nil-append t) ∙ sym (nil-append (ink t))
ink-append (String.◌∷◌ c s) t = elim (Bool-cases (is_space (code c))) [
  | inl y ↦
      ap ink (cons-append c s t)
      ∙ if_true _ _ _ y
      ∙ ink-append s t
      ∙ ap (λ v. v ++ ink t) (sym (if_true _ _ _ y))
  | inr n ↦
      ap ink (cons-append c s t)
      ∙ if_false _ _ _ n
      ∙ ap (String.◌∷◌ c) (ink-append s t)
      ∙ sym (cons-append c (ink s) (ink t))
      ∙ ap (λ v. v ++ ink t) (sym (if_false _ _ _ n))
]

ink-trim_left : (s : String) → ink (trim_left s) ≡ ink s
unfolding ink trim_left
ink-trim_left String.[] = refl
ink-trim_left (String.◌∷◌ c s) = elim (Bool-cases (is_space (code c))) [
  | inl y ↦ rw y (ink-trim_left s)
  | inr n ↦ rw n (if_false _ _ _ n)
]

ink-keep_nonempty : (c : Char) (r : String) → ink (keep_nonempty c r) ≡ ink (String.◌∷◌ c r)
unfolding ink keep_nonempty
ink-keep_nonempty c String.[] = elim (Bool-cases (is_space (code c))) [
  | inl y ↦ rw y refl
  | inr n ↦ rw n (if_false _ _ _ n)
]
ink-keep_nonempty c (String.◌∷◌ d t) = refl

ink-trim_right : (s : String) → ink (trim_right s) ≡ ink s
unfolding trim_right
ink-trim_right String.[] = refl
ink-trim_right (String.◌∷◌ c s) =
    ink-keep_nonempty c (trim_right s) ∙ ink-cons c (trim_right s) s (ink-trim_right s)

-- a trim loses no character that is no space
pub ink-trim_space : (s : String) → ink (trim_space s) ≡ ink s
unfolding trim_space
ink-trim_space s = ink-trim_right (trim_left s) ∙ ink-trim_left s

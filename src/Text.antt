-- ===== src/Text.antt =====
-- The texts of the program: what it uses of Go's `strings` and `unicode`, and `normalizeCoreText`
-- of go/config_store.go. A text is the list of its characters; `len` counts the bytes of its UTF-8
-- and `count` its runes, as Go's `len(s)` and `len([]rune(s))` do.
pub mod Ink
use Prim.Native.Char.{Char, code}
use Prim.Native.String.{String, len}
use erdai_agent.Prelude.{
  ℕ, ◌+◌, Bool, true, false, not, ◌&&◌, ◌||◌, leb, ◌==◌, str_eq, if◌then◌else◌, ◌≡◌, refl, ap, ◌∙◌,
  arith, Bool-cases, inl, inr, if_false,
}

-- `unicode.IsSpace`
unfoldable pub is_space : ℕ → Bool
is_space c =
    (leb 9 c && leb c 13)
    || c == 32
    || c == 0x85
    || c == 0xa0
    || c == 0x1680
    || (leb 0x2000 c && leb c 0x200a)
    || c == 0x2028
    || c == 0x2029
    || c == 0x202f
    || c == 0x205f
    || c == 0x3000

trim_left : String → String
trim_left String.[] = ""
trim_left (String.◌∷◌ c s) =
    let rest = trim_left s in if is_space (code c) then rest else String.◌∷◌ c s

keep_nonempty : Char → String → String
keep_nonempty c String.[] = if is_space (code c) then "" else String.◌∷◌ c ""
keep_nonempty c s = String.◌∷◌ c s

trim_right : String → String
trim_right String.[] = ""
trim_right (String.◌∷◌ c s) = keep_nonempty c (trim_right s)

-- `strings.TrimSpace`
unfoldable pub trim_space : String → String
unfolding is_space trim_left keep_nonempty trim_right
trim_space s = trim_right (trim_left s)

-- an empty text, or one that begins with no space
abbrev starts_well : String → Bool
starts_well String.[] = true
starts_well (String.◌∷◌ c s) = not (is_space (code c))

trim_left-starts_well : (s : String) → starts_well (trim_left s) ≡ true
unfolding trim_left
trim_left-starts_well String.[] = refl
trim_left-starts_well (String.◌∷◌ c s) = elim (Bool-cases (is_space (code c))) [
  | inl y ↦ rw y (trim_left-starts_well s)
  | inr n ↦ rw n (ap not n)
]

trim_left-fixed : (s : String) → starts_well s ≡ true → trim_left s ≡ s
unfolding trim_left
trim_left-fixed String.[] h = refl
trim_left-fixed (String.◌∷◌ c s) h = ground arith

keep_nonempty-starts_well :
    (c : Char) (r : String)
    → not (is_space (code c)) ≡ true
    → starts_well (keep_nonempty c r) ≡ true
unfolding keep_nonempty
keep_nonempty-starts_well c String.[] h = ground arith
keep_nonempty-starts_well c (String.◌∷◌ d t) h = h

trim_right-starts_well : (s : String) → starts_well s ≡ true → starts_well (trim_right s) ≡ true
unfolding trim_right
trim_right-starts_well String.[] h = refl
trim_right-starts_well (String.◌∷◌ c s) h = keep_nonempty-starts_well c (trim_right s) h

trim_right-keep :
    (c : Char) (r : String) → trim_right r ≡ r → trim_right (keep_nonempty c r) ≡ keep_nonempty c r
unfolding trim_right keep_nonempty
trim_right-keep c String.[] h = elim (Bool-cases (is_space (code c))) [
  | inl y ↦ rw y refl
  | inr n ↦ rw n (if_false _ _ _ n)
]
trim_right-keep c (String.◌∷◌ d t) h = ap (keep_nonempty c) h

trim_right-trim_right : (s : String) → trim_right (trim_right s) ≡ trim_right s
unfolding trim_right
trim_right-trim_right String.[] = refl
trim_right-trim_right (String.◌∷◌ c s) = trim_right-keep c (trim_right s) (trim_right-trim_right s)

-- a second trim changes nothing
pub trim_space-trim_space : (s : String) → trim_space (trim_space s) ≡ trim_space s
unfolding trim_space
trim_space-trim_space s =
    ap trim_right (
      trim_left-fixed (trim_right (trim_left s))
        (trim_right-starts_well (trim_left s) (trim_left-starts_well s)))
    ∙ trim_right-trim_right (trim_left s)

-- `strings.HasPrefix`
unfoldable pub has_prefix : String → String → Bool
has_prefix s String.[] = true
has_prefix String.[] (String.◌∷◌ d t) = false
has_prefix (String.◌∷◌ c s) (String.◌∷◌ d t) = code c == code d && has_prefix s t

-- the text without as many characters as the second has
unfoldable pub drop_chars : String → String → String
drop_chars s String.[] = s
drop_chars String.[] (String.◌∷◌ d t) = ""
drop_chars (String.◌∷◌ c s) (String.◌∷◌ d t) = drop_chars s t

-- `strings.TrimPrefix`
unfoldable pub trim_prefix : String → String → String
unfolding drop_chars has_prefix
trim_prefix s p = if has_prefix s p then drop_chars s p else s

-- `strings.Contains`
unfoldable pub contains : String → String → Bool
unfolding has_prefix
contains String.[] t = str_eq t ""
contains (String.◌∷◌ c s) t = has_prefix (String.◌∷◌ c s) t || contains s t

-- SQLite folds the ASCII letters, in NOCASE and in LIKE
unfoldable pub fold_case : ℕ → ℕ
fold_case c = if leb 65 c && leb c 90 then c + 32 else c

-- `s LIKE p || '%'`, where `_` stands for any character
unfoldable pub like_prefix : String → String → Bool
unfolding fold_case
like_prefix String.[] s = true
like_prefix (String.◌∷◌ p ps) String.[] = false
like_prefix (String.◌∷◌ p ps) (String.◌∷◌ c cs) =
    (code p == 95 || fold_case (code p) == fold_case (code c)) && like_prefix ps cs

trim_test : trim_space " a b\n" ≡ "a b"
unfolding trim_space
trim_test = refl

contains_test : contains "每天部署" "部署" ≡ true
unfolding contains
contains_test = refl

len_test : len "每天a" ≡ 7
len_test = refl

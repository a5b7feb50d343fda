-- ===== src/Replies/Segments.antt =====
-- `splitReplyText`, `naturalReplyUnits`, `replyHasFormalLayout` and `boundedReplySetting` of
-- go/reply_segmentation.go. `strings.ToLower` is a parameter.
use Prim.Native.Char.{Char, code}
use Prim.Native.String.{count, ◌++◌ as text_append}
use erdai_agent.Prelude.{
  ℕ, ◌-◌, Bool, false, not, ◌&&◌, ◌||◌, if◌then◌else◌, ltb, leb, ◌==◌, str_eq, String, Option, none,
  some, List, [], ◌∷◌, ◌++◌, length, take, drop, ℤ, pos, negsuc,
}
use erdai_agent.Text.{trim_space, has_prefix, contains}

-- the fields of `runtimeMessagePolicy` that decide
pub record SegmentPolicy : Type 0 where
  pub segmented_reply_enabled : Option Bool
  pub segment_min_chars : ℤ
  pub segment_max_chars : ℤ
  pub max_reply_segments : ℤ

unfoldable pub one_of : ℕ → List ℕ → Bool
one_of c [] = false
one_of c (d ∷ ds) = c == d || one_of c ds

-- `replyClosingRunes`
abbrev pub reply_closing_runes : List ℕ
reply_closing_runes =
    0x22 ∷ 0x27 ∷ 0x201d ∷ 0x2019 ∷ 0xff09 ∷ 0x29 ∷ 0x3011 ∷ 0x5d ∷ 0x300b ∷ 0x3009 ∷ 0x300d
    ∷ 0x300f ∷ []

-- `isReplyBoundary`: 。！？!?；; and the line feed
abbrev pub reply_boundaries : List ℕ
reply_boundaries = 0x3002 ∷ 0xff01 ∷ 0xff1f ∷ 0x21 ∷ 0x3f ∷ 0xff1b ∷ 0x3b ∷ 10 ∷ []

unfoldable pub is_boundary : Char → Bool
unfolding one_of
is_boundary c = one_of (code c) reply_boundaries

unfoldable pub is_closing : Char → Bool
unfolding one_of
is_closing c = one_of (code c) reply_closing_runes

-- a character in front of the first piece
abbrev pub grow : Char → List String → List String
grow c [] = String.◌∷◌ c "" ∷ []
grow c (p ∷ ps) = String.◌∷◌ c p ∷ ps

-- the cut of a text into pieces: a boundary ends a piece, with the closing runes behind it. The flag
-- says that the boundary is passed.
unfoldable pub pieces : Bool → String → List String
pieces passed String.[] = "" ∷ []
pieces passed (String.◌∷◌ c s) =
    let rest = grow c (pieces (is_boundary c || (passed && is_closing c)) s) in
    if passed && not (is_closing c) then "" ∷ rest else rest

-- trimmed, and only where something is left
unfoldable pub keep_units : List String → List String
keep_units [] = []
keep_units (p ∷ ps) =
    let rest = keep_units ps in if str_eq (trim_space p) "" then rest else trim_space p ∷ rest

abbrev pub or_whole : String → List String → List String
or_whole text [] = trim_space text ∷ []
or_whole text (u ∷ us) = u ∷ us

-- `naturalReplyUnits`
unfoldable pub natural_reply_units : String → List String
unfolding keep_units pieces
natural_reply_units text = or_whole text (keep_units (pieces false text))

-- `strings.ReplaceAll(text, "\r\n", "\n")`
unfoldable pub replace_crlf : String → String
replace_crlf String.[] = ""
replace_crlf (String.◌∷◌ c s) =
    let rest = replace_crlf s in
    if code c == 13 && has_prefix s "\n" then rest else String.◌∷◌ c rest

-- `strings.Split(text, "\n")`
unfoldable pub lines : String → List String
lines String.[] = "" ∷ []
lines (String.◌∷◌ c s) = let rest = lines s in if code c == 10 then "" ∷ rest else grow c rest

abbrev formal_line : String → Bool
formal_line line =
    let t = trim_space line in
    has_prefix t "- " || has_prefix t "* " || has_prefix t "# " || has_prefix t "1. "

any_formal : List String → Bool
any_formal [] = false
any_formal (l ∷ ls) = formal_line l || any_formal ls

unfoldable pub reply_has_formal_layout : (String → String) → String → Bool
unfolding contains any_formal lines has_prefix trim_space
reply_has_formal_layout lower text =
    let l = lower text in
    contains text "`"
    || contains text "~~~"
    || contains l "https://"
    || contains l "http://"
    || contains l "www."
    || any_formal (lines text)

-- 0 stands for the fallback
unfoldable pub bounded_reply_setting : ℤ → ℕ → ℕ → ℕ → ℕ
bounded_reply_setting (negsuc n) fallback minimum maximum = minimum
bounded_reply_setting (pos n) fallback minimum maximum =
    if n == 0
    then fallback
    else if ltb n minimum
    then minimum
    else if ltb maximum n
    then maximum
    else n

-- the loop over the units: a unit that would pass the maximum begins a new segment
unfoldable pub pack : ℕ → String → List String → List String
pack maximum current [] = if str_eq current "" then [] else current ∷ []
pack maximum current (u ∷ us) =
    let candidate = text_append current u in
    let full = not (str_eq current "") && ltb maximum (count candidate) in
    let rest = pack maximum (if full then u else candidate) us in
    if full then current ∷ rest else rest

-- `strings.Join(segments, "")`
unfoldable pub join : List String → String
join [] = ""
join (s ∷ ss) = text_append s (join ss)

-- more segments than allowed: the rest is the last one
unfoldable pub cap : ℕ → List String → List String
cap n segments =
    if ltb n (length segments)
    then take (n - 1) segments ++ (join (drop (n - 1) segments) ∷ [])
    else segments

abbrev pub disabled : Option Bool → Bool
disabled none = false
disabled (some b) = not b

abbrev pub segment_bounds : SegmentPolicy → ℕ × ℕ
segment_bounds policy =
    let minimum = bounded_reply_setting policy.segment_min_chars 10 1 80 in
    let maximum = bounded_reply_setting policy.segment_max_chars 20 minimum 120 in
    (
      (if ltb maximum minimum then minimum else maximum),
      bounded_reply_setting policy.max_reply_segments 2 1 5,
    )

abbrev pub split_cleaned : (String → String) → String → SegmentPolicy → Bool → List String
split_cleaned lower cleaned policy preserve_formatting =
    if str_eq cleaned ""
    then []
    else if preserve_formatting
        || reply_has_formal_layout lower cleaned
        || disabled policy.segmented_reply_enabled
    then cleaned ∷ []
    else (let (maximum, max_segments) = segment_bounds policy in
        if leb (count cleaned) maximum || max_segments == 1
        then cleaned ∷ []
        else cap max_segments (pack maximum "" (natural_reply_units cleaned)))

-- `splitReplyText`
unfoldable pub split_reply_text : (String → String) → String → SegmentPolicy → Bool → List String
unfolding natural_reply_units replace_crlf reply_has_formal_layout bounded_reply_setting pack cap
    join
split_reply_text lower text policy preserve_formatting =
    split_cleaned lower (trim_space (replace_crlf text)) policy preserve_formatting

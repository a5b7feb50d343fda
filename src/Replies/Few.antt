-- ===== src/Replies/Few.antt =====
-- The segments of a reply in go/reply_segmentation.go are few and not empty.
use Prim.Native.Char.{Char}
use Prim.Native.String.{count, ◌++◌ as text_append}
use Prim.Native.String.compare
use text.Mathlib.TextLemmas.{cons-append}
use erdai_agent.Prelude.{
  ℕ, zero, suc, ◌-◌, ◌≤◌, ◌<◌, Bool, true, false, not, ◌&&◌, ◌||◌, ltb, leb, ◌==◌, str_eq, String,
  List, [], ◌∷◌, length, take, drop, length-append, All, ℤ, pos, negsuc, ◌≡◌, refl, sym, ap, subst,
  arith, Bool-cases, inl, inr, ltb→lt, All-append,
}
use erdai_agent.Text.{trim_space}
use erdai_agent.Replies.Segments.{
  SegmentPolicy, natural_reply_units, replace_crlf, reply_has_formal_layout, bounded_reply_setting,
  pack, join, cap, disabled, segment_bounds, split_cleaned, split_reply_text,
}

-- a segment is not empty
abbrev pub Filled : String → Type 0
Filled s = str_eq s "" ≡ false

cleaned-Filled : (cleaned : String) → str_eq cleaned "" ≡ false → All Filled (cleaned ∷ [])
cleaned-Filled cleaned n = (n, tt)

All-pack :
    (maximum : ℕ) (current : String) (us : List String) → All Filled (pack maximum current us)
unfolding pack
All-pack maximum current [] = elim (Bool-cases (str_eq current "")) [
  | inl y ↦ rw y tt
  | inr n ↦ rw n (n, tt)
]
All-pack maximum current (u ∷ us) =
    elim (Bool-cases (not (str_eq current "") && ltb maximum (count (text_append current u)))) [
      | inl y ↦ rw y (first_of (str_eq current "") _ y, All-pack maximum u us)
      | inr n ↦ rw n (All-pack maximum (text_append current u) us)
    ]
  where
    first_of : (a b : Bool) → (not a && b) ≡ true → a ≡ false
    first_of a b h = ground arith

append-Filled : (s t : String) → Filled s → Filled (text_append s t)
append-Filled String.[] t h = cc
append-Filled (String.◌∷◌ c s) t h =
    subst (λ v. Filled v) (sym (cons-append c s t)) (cons-Filled c (text_append s t))
  where
    cons-Filled : (d : Char) (v : String) → Filled (String.◌∷◌ d v)
    cons-Filled d v = ground (arith, compare.cons-nil d v)

All-take : (n : ℕ) (ss : List String) → All Filled ss → All Filled (take n ss)
All-take zero ss h = tt
All-take (suc n) [] h = tt
All-take (suc n) (s ∷ ss) h = (h.0, All-take n ss h.1)

join-drop-Filled :
    (n : ℕ) (ss : List String) → n < length ss → All Filled ss → Filled (join (drop n ss))
unfolding join
join-drop-Filled n [] l h = absurd (omega arith)
join-drop-Filled zero (s ∷ ss) l h = append-Filled s (join ss) h.0
join-drop-Filled (suc n) (s ∷ ss) l h = join-drop-Filled n ss (omega arith) h.1

length-take : (n : ℕ) (ss : List String) → n ≤ length ss → length (take n ss) ≡ n
length-take zero ss l = refl
length-take (suc n) [] l = absurd (omega arith)
length-take (suc n) (s ∷ ss) l = ap suc (length-take n ss (omega arith))

cap-fits :
    (n : ℕ) (ss : List String)
    → 1 ≤ n
    → All Filled ss
    → (length (cap n ss) ≤ n) × All Filled (cap n ss)
unfolding cap
cap-fits n ss one h = elim (Bool-cases (ltb n (length ss))) [
  | inl y ↦
      let l : n < length ss = ltb→lt n (length ss) y in
      let k = length-take (n - 1) ss (omega arith) in
      let whole = length-append (take (n - 1) ss) (join (drop (n - 1) ss) ∷ []) in
      rw y (
        omega arith,
        All-append Filled (take (n - 1) ss) (join (drop (n - 1) ss) ∷ []) (All-take (n - 1) ss h)
            (join-drop-Filled (n - 1) ss (omega arith) h, tt),
      )
  | inr m ↦ rw m (not_more n (length ss) m, h)
]
  where
    not_more : (a b : ℕ) → ltb a b ≡ false → b ≤ a
    not_more a b h = ground arith

bounded_reply_setting-range :
    (v : ℤ) (fallback lo hi : ℕ)
    → lo ≤ fallback
    → fallback ≤ hi
    → lo ≤ hi
    → (lo ≤ bounded_reply_setting v fallback lo hi) × (bounded_reply_setting v fallback lo hi ≤ hi)
unfolding bounded_reply_setting
bounded_reply_setting-range (negsuc n) fallback lo hi a b c = (omega arith, c)
bounded_reply_setting-range (pos n) fallback lo hi a b c = ground arith

split_cleaned-fits :
    (lower : String → String) (cleaned : String) (policy : SegmentPolicy) (keep : Bool)
    → let n = (segment_bounds policy).1 in
      (length (split_cleaned lower cleaned policy keep) ≤ n)
      × All Filled (split_cleaned lower cleaned policy keep)
split_cleaned-fits lower cleaned policy keep =
    let n = (segment_bounds policy).1 in
    let maximum = (segment_bounds policy).0 in
    let one : 1 ≤ n =
      (bounded_reply_setting-range policy.max_reply_segments 2 1 5 (omega arith) (omega arith)
        (omega arith)).0 in
    elim (Bool-cases (str_eq cleaned "")) [
      | inl y ↦ rw y (omega arith, tt)
      | inr m ↦
          rw m
            (elim (Bool-cases (
              keep
              || reply_has_formal_layout lower cleaned
              || disabled policy.segmented_reply_enabled)) [
                | inl y ↦ rw y (one, cleaned-Filled cleaned m)
                | inr k ↦ rw k (elim (Bool-cases (leb (count cleaned) maximum || n == 1)) [
                  | inl y ↦ rw y (one, cleaned-Filled cleaned m)
                  | inr l ↦ rw l (
                      cap-fits n (pack maximum "" (natural_reply_units cleaned)) one
                        (All-pack maximum "" (natural_reply_units cleaned)))
                ])
              ])
    ]

-- A reply is sent in at most five segments, and in at most as many as the policy allows, and none of
-- them is empty.
pub split_reply_text-fits :
    (lower : String → String) (text : String) (policy : SegmentPolicy) (preserve_formatting : Bool)
    → let segments = split_reply_text lower text policy preserve_formatting in
      (length segments ≤ bounded_reply_setting policy.max_reply_segments 2 1 5)
      × (length segments ≤ 5)
      × All Filled segments
unfolding split_reply_text
split_reply_text-fits lower text policy preserve_formatting =
    let (few, filled) =
      split_cleaned-fits lower (trim_space (replace_crlf text)) policy preserve_formatting in
    let (_, five) =
      bounded_reply_setting-range policy.max_reply_segments 2 1 5 (omega arith) (omega arith)
        (omega arith) in
    (few, omega arith, filled)

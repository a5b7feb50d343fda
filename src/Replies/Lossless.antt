-- ===== src/Replies/Lossless.antt =====
-- The segments of a reply in go/reply_segmentation.go hold what the reply holds.
use Prim.Native.Char.{Char, code}
use Prim.Native.String.{count, ◌++◌ as text_append}
use text.Mathlib.TextLemmas.{nil-append, cons-append, append-nil, append_assoc}
use erdai_agent.Prelude.{
  ℕ, zero, suc, ◌-◌, Bool, true, false, not, ◌&&◌, ◌||◌, if◌then◌else◌, ltb, leb, ◌==◌, str_eq,
  String, List, [], ◌∷◌, ◌++◌, length, take, drop, ◌≡◌, refl, sym, ap, subst, ◌∙◌, arith,
  Bool-cases, inl, inr, if_true, if_false, eq_iff,
}
use erdai_agent.Text.{is_space, trim_space, has_prefix}
use erdai_agent.Text.Ink.{ink, ink-cons, ink-append, ink-trim_space}
use erdai_agent.Replies.Segments.{
  SegmentPolicy, is_boundary, is_closing, grow, pieces, keep_units, or_whole, natural_reply_units,
  replace_crlf, reply_has_formal_layout, pack, join, cap, disabled, segment_bounds, split_cleaned,
  split_reply_text,
}

join-grow : (c : Char) (ps : List String) → join (grow c ps) ≡ String.◌∷◌ c (join ps)
unfolding join
join-grow c [] = cons-append c "" "" ∙ ap (String.◌∷◌ c) (nil-append "")
join-grow c (p ∷ ps) = cons-append c p (join ps)

join-fresh : (b : Bool) (ps : List String) → join (if b then "" ∷ ps else ps) ≡ join ps
unfolding join
join-fresh true ps = nil-append (join ps)
join-fresh false ps = refl

join-single : (s : String) → join (s ∷ []) ≡ s
unfolding join
join-single s = append-nil s

join-nil : join [] ≡ ""
unfolding join
join-nil = refl

-- the pieces are the text
join-pieces : (passed : Bool) (s : String) → join (pieces passed s) ≡ s
unfolding pieces
join-pieces passed String.[] = join-single ""
join-pieces passed (String.◌∷◌ c s) =
    join-fresh (passed && not (is_closing c))
      (grow c (pieces (is_boundary c || (passed && is_closing c)) s))
    ∙ join-grow c (pieces (is_boundary c || (passed && is_closing c)) s)
    ∙ ap (String.◌∷◌ c) (join-pieces (is_boundary c || (passed && is_closing c)) s)

ink-empty : (s : String) → str_eq (trim_space s) "" ≡ true → ink s ≡ ""
unfolding ink
ink-empty s h = sym (ink-trim_space s) ∙ ap ink ((eq_iff (trim_space s) "").0 h)

ink-keep_units : (ps : List String) → ink (join (keep_units ps)) ≡ ink (join ps)
unfolding keep_units join
ink-keep_units [] = refl
ink-keep_units (p ∷ ps) = elim (Bool-cases (str_eq (trim_space p) "")) [
  | inl y ↦
      ap (λ us. ink (join us)) (if_true _ _ _ y)
      ∙ ink-keep_units ps
      ∙ sym (nil-append (ink (join ps)))
      ∙ ap (λ v. text_append v (ink (join ps))) (sym (ink-empty p y))
      ∙ sym (ink-append p (join ps))
  | inr n ↦
      ap (λ us. ink (join us)) (if_false _ _ _ n)
      ∙ ink-append (trim_space p) (join (keep_units ps))
      ∙ ap (λ v. text_append v (ink (join (keep_units ps)))) (ink-trim_space p)
      ∙ ap (text_append (ink p)) (ink-keep_units ps)
      ∙ sym (ink-append p (join ps))
]

ink-or_whole :
    (text : String) (us : List String)
    → ink (join us) ≡ ink text
    → ink (join (or_whole text us)) ≡ ink text
ink-or_whole text [] h = ap ink (join-single (trim_space text)) ∙ ink-trim_space text
ink-or_whole text (u ∷ us) h = h

ink-natural_reply_units : (text : String) → ink (join (natural_reply_units text)) ≡ ink text
unfolding natural_reply_units
ink-natural_reply_units text =
    ink-or_whole text (keep_units (pieces false text))
      (ink-keep_units (pieces false text) ∙ ap ink (join-pieces false text))

join-pack :
    (maximum : ℕ) (current : String) (us : List String)
    → join (pack maximum current us) ≡ text_append current (join us)
unfolding pack join
join-pack maximum current [] = elim (Bool-cases (str_eq current "")) [
  | inl y ↦
      ap join (if_true _ _ _ y)
      ∙ sym (nil-append "")
      ∙ ap (λ v. text_append v "") (sym ((eq_iff current "").0 y))
  | inr n ↦ ap join (if_false _ _ _ n)
]
join-pack maximum current (u ∷ us) =
    elim (Bool-cases (not (str_eq current "") && ltb maximum (count (text_append current u)))) [
      | inl y ↦ rw y (ap (text_append current) (join-pack maximum u us))
      | inr n ↦
          rw n (join-pack maximum (text_append current u) us ∙ append_assoc current u (join us))
    ]

join-split : (n : ℕ) (ss : List String) → join (take n ss ++ (join (drop n ss) ∷ [])) ≡ join ss
unfolding join
join-split zero ss = append-nil (join ss)
join-split (suc n) [] = append-nil ""
join-split (suc n) (s ∷ ss) = ap (text_append s) (join-split n ss)

join-cap : (n : ℕ) (ss : List String) → join (cap n ss) ≡ join ss
unfolding cap
join-cap n ss = elim (Bool-cases (ltb n (length ss))) [
  | inl y ↦ rw y (join-split (n - 1) ss)
  | inr m ↦ rw m refl
]

return_space : (n : ℕ) (b : Bool) → ((n == 13) && b) ≡ true → is_space n ≡ true
unfolding is_space
return_space n b h = let e : n ≡ 13 = thirteen n b h in subst (λ m. is_space m ≡ true) (sym e) refl
  where
    thirteen : (m : ℕ) (c : Bool) → ((m == 13) && c) ≡ true → m ≡ 13
    thirteen m c k = ground arith

ink-replace_crlf : (s : String) → ink (replace_crlf s) ≡ ink s
unfolding replace_crlf ink
ink-replace_crlf String.[] = refl
ink-replace_crlf (String.◌∷◌ c s) = elim (Bool-cases (code c == 13 && has_prefix s "\n")) [
  | inl y ↦ rw y (ink-replace_crlf s ∙ sym (if_true _ _ _ (return_space (code c) _ y)))
  | inr n ↦ rw n (ink-cons c (replace_crlf s) s (ink-replace_crlf s))
]

ink-cleaned : (text : String) → ink (trim_space (replace_crlf text)) ≡ ink text
ink-cleaned text = ink-trim_space (replace_crlf text) ∙ ink-replace_crlf text

ink-split_cleaned :
    (lower : String → String) (cleaned : String) (policy : SegmentPolicy) (keep : Bool)
    → ink (join (split_cleaned lower cleaned policy keep)) ≡ ink cleaned
ink-split_cleaned lower cleaned policy keep = elim (Bool-cases (str_eq cleaned "")) [
  | inl y ↦ rw y (nothing ∙ ap ink (sym ((eq_iff cleaned "").0 y)))
  | inr n ↦
      rw n
        (elim (Bool-cases (
          keep
          || reply_has_formal_layout lower cleaned
          || disabled policy.segmented_reply_enabled)) [
            | inl y ↦ rw y (ap ink (join-single cleaned))
            | inr m ↦ rw m (packed (segment_bounds policy).0 (segment_bounds policy).1)
          ])
]
  where
    nothing : ink (join []) ≡ ink ""
    nothing = ap ink join-nil

    packed :
        (maximum n : ℕ)
        → ink (
            join (
              if leb (count cleaned) maximum || n == 1
              then cleaned ∷ []
              else cap n (pack maximum "" (natural_reply_units cleaned))))
          ≡ ink cleaned
    packed maximum n = elim (Bool-cases (leb (count cleaned) maximum || n == 1)) [
      | inl y ↦ rw y (ap ink (join-single cleaned))
      | inr m ↦ rw m (
          ap ink (
            join-cap n (pack maximum "" (natural_reply_units cleaned))
            ∙ join-pack maximum "" (natural_reply_units cleaned)
            ∙ nil-append (join (natural_reply_units cleaned)))
          ∙ ink-natural_reply_units cleaned)
    ]

-- However a reply is split, its segments, put together again, have the characters of the reply in
-- their order: only spaces are lost.
pub split_reply_text-lossless :
    (lower : String → String) (text : String) (policy : SegmentPolicy) (preserve_formatting : Bool)
    → ink (join (split_reply_text lower text policy preserve_formatting)) ≡ ink text
unfolding split_reply_text
split_reply_text-lossless lower text policy preserve_formatting =
    ink-split_cleaned lower (trim_space (replace_crlf text)) policy preserve_formatting
    ∙ ink-cleaned text

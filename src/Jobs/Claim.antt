-- ===== src/Jobs/Claim.antt =====
-- What the claim of go/durable_jobs.go picks: a claimable row, and one that no other precedes.
use mathlib.Core.List.{Memᴰ}
use erdai_agent.Prelude.{
  ℕ, Bool, true, false, none, some, ◌≡◌, arith, List, [], ◌∷◌, inl, inr, Bool-cases, Option-cases,
  All, text_lt_asym, text_lt_split, ◌⊎◌, subst, ltb_ℤ, ℤ,
}
use text.Mathlib.TextPositions.{eq_refl}
use erdai_agent.Jobs.Status.{queued}
use erdai_agent.Jobs.Store.{Job}
use erdai_agent.Jobs.Worker.{claimable, precedes, pick, with_status, due_text, lex}

pub pick-claimable :
    (now : ℕ) (js : List Job) {j : Job}
    → pick now js ≡ some j
    → Memᴰ j js × (claimable now j ≡ true)
unfolding pick
pick-claimable now [] h = cc
pick-claimable now (i ∷ js) {j} h = elim (Bool-cases (claimable now i)) [
  | inr n ↦ let r = pick-claimable now js {j = j} (ground arith) in (Memᴰ.tail r.0, r.1)
  | inl y ↦ elim (Option-cases (pick now js)) [
    | inl p ↦ (Memᴰ.head (ground arith), ground arith)
    | inr (k, p) ↦ elim (Bool-cases (precedes k i)) [
      | inr q ↦ (Memᴰ.head (ground arith), ground arith)
      | inl q ↦ let r = pick-claimable now js {j = j} (ground arith) in (Memᴰ.tail r.0, r.1)
    ]
  ]
]

pub All-map {ℓ κ} :
    (P : Job → Type ℓ) (Q : Job → Type κ)
    → ((j : Job) → P j → Q j)
    → (js : List Job) → All P js
    → All Q js
All-map P Q f [] h = tt
All-map P Q f (j ∷ js) h = (f j h.0, All-map P Q f js h.1)

pub claimable-queued :
    (now : ℕ) (j : Job)
    → claimable now j ≡ true
    → (with_status j.id queued j ≡ true) × (j.requires_approval ≡ false)
unfolding claimable
claimable-queued now j h = ground (arith, eq_refl j.id)

-- The order of the claim, on its three keys.
precedes_asym : (a b : Job) → precedes a b ≡ true → precedes b a ≡ false
unfolding precedes
precedes_asym a b h = ground (
  arith,
  text_lt_asym (due_text a) (due_text b),
  text_lt_asym a.created_at.text b.created_at.text,
)

-- A lexicographic order separates if its keys do.
lex_split :
    (ab ba bc cb ac ca r_ab r_bc r_ac : Bool)
    → (ac ≡ true → (ab ≡ true) ⊎ (bc ≡ true))
    → (ba ≡ true → (bc ≡ true) ⊎ (ca ≡ true))
    → (cb ≡ true → (ca ≡ true) ⊎ (ab ≡ true))
    → (r_ac ≡ true → (r_ab ≡ true) ⊎ (r_bc ≡ true))
    → lex ac ca r_ac ≡ true
    → (lex ab ba r_ab ≡ true) ⊎ (lex bc cb r_bc ≡ true)
lex_split ab ba bc cb ac ca r_ab r_bc r_ac h₁ h₂ h₃ h₄ h = ground arith

ltb_ℤ_split : (a b c : ℤ) → ltb_ℤ a c ≡ true → (ltb_ℤ a b ≡ true) ⊎ (ltb_ℤ b c ≡ true)
ltb_ℤ_split a b c h = ground arith

ltb_ℤ_split' : (a b c : ℤ) → ltb_ℤ c a ≡ true → (ltb_ℤ b a ≡ true) ⊎ (ltb_ℤ c b ≡ true)
ltb_ℤ_split' a b c h = ground arith

precedes_split : (a b c : Job) → precedes a c ≡ true → (precedes a b ≡ true) ⊎ (precedes b c ≡ true)
unfolding precedes
precedes_split a b c h =
    lex_split _ _ _ _ _ _ _ _ _ (ltb_ℤ_split' a.priority b.priority c.priority)
      (ltb_ℤ_split' b.priority c.priority a.priority)
      (ltb_ℤ_split' c.priority a.priority b.priority)
      (lex_split _ _ _ _ _ _ _ _ _ (text_lt_split (due_text a) (due_text b) (due_text c))
        (text_lt_split (due_text b) (due_text c) (due_text a))
        (text_lt_split (due_text c) (due_text a) (due_text b))
        (text_lt_split a.created_at.text b.created_at.text c.created_at.text))
      h

precedes_irrefl : (a : Job) → precedes a a ≡ false
precedes_irrefl a = elim (Bool-cases (precedes a a)) [ inl y ↦ precedes_asym a a y | inr n ↦ n ]

-- what does not precede `k` does not precede what `k` does not precede
weaken : (l k i : Job) → precedes k i ≡ false → precedes l k ≡ false → precedes l i ≡ false
weaken l k i q r = elim (Bool-cases (precedes l i)) [
  | inr n ↦ n
  | inl y ↦ elim (precedes_split l k i y) [ inl c ↦ cc | inr c ↦ cc ]
]

none-claimable :
    (now : ℕ) (js : List Job) (j : Job)
    → pick now js ≡ none
    → All (λ i. claimable now i ≡ true → precedes i j ≡ false) js
unfolding pick
none-claimable now [] j h = tt
none-claimable now (i ∷ js) j h = elim (Bool-cases (claimable now i)) [
  | inr n ↦ (λ y. cc, none-claimable now js j (ground arith))
  | inl y ↦ elim (Option-cases (pick now js)) [
    | inl p ↦ absurd (ground arith)
    | inr (k, p) ↦ absurd (ground arith)
  ]
]

-- Of the claimable rows none precedes the one that is picked.
pick_best :
    (now : ℕ) (js : List Job) {j : Job}
    → pick now js ≡ some j
    → All (λ i. claimable now i ≡ true → precedes i j ≡ false) js
unfolding pick
pick_best now [] h = cc
pick_best now (i ∷ js) {j} h = elim (Bool-cases (claimable now i)) [
  | inr n ↦ (λ y. cc, pick_best now js {j = j} (ground arith))
  | inl y ↦ elim (Option-cases (pick now js)) [
    | inl p ↦ (
      λ _. let e : i ≡ j = ground arith in subst (λ k. precedes i k ≡ false) e (precedes_irrefl i),
      none-claimable now js j p,
    )
    | inr (k, p) ↦ elim (Bool-cases (precedes k i)) [
      | inr q ↦
          let e : i ≡ j = ground arith in
          (
            λ _. subst (λ k. precedes i k ≡ false) e (precedes_irrefl i),
            All-map _ _ (λ l r y'. subst (λ m. precedes l m ≡ false) e (weaken l k i q (r y'))) js
                (pick_best now js p),
          )
      | inl q ↦
          let e : k ≡ j = ground arith in
          (
            λ _. subst (λ m. precedes i m ≡ false) e (precedes_asym k i q),
            pick_best now js {j = j} (ground arith),
          )
    ]
  ]
]

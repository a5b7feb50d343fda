-- ===== src/Jobs/Only.antt =====
-- A row of `durable_jobs` whose identifier no other row has: a statement that selects it touches it
-- alone, and the next statement finds it again.
use mathlib.Core.List.{Memᴰ}
use erdai_agent.Prelude.{
  if◌then◌else◌, ◌⊎◌, ℕ, suc, ◌+◌, Bool, true, false, String, some, str_eq, List, [], ◌∷◌, All, ◌≡◌,
  refl, inl, inr, arith, Bool-cases, sym, subst, ap, ◌∙◌, eq_iff, map,
}
use text.Mathlib.TextPositions.{eq_refl}
use erdai_agent.Jobs.Store.{Job, find_job, update_where, count_where}
use erdai_agent.Jobs.Rows.{All-mem}
use erdai_agent.Jobs.Identity.{Apart, Distinct, key_of}
use erdai_agent.Jobs.Fence.{count_none}

-- `j` stands in the list, and its identifier nowhere else
abbrev pub Only : String → Job → List Job → Type 0
Only id j [] = ⊥
Only id j (k ∷ js) =
    ((str_eq k.id id ≡ true) × (k ≡ j) × All (λ i. str_eq i.id id ≡ false) js)
    ⊎ ((str_eq k.id id ≡ false) × Only id j js)

str_eq_sym : (a b : String) → str_eq a b ≡ false → str_eq b a ≡ false
str_eq_sym a b h = elim (Bool-cases (str_eq b a)) [
  | inr n ↦ n
  | inl y ↦
      let same = subst (λ c. str_eq a c ≡ false) ((eq_iff b a).0 y) h in
      let refl_a = eq_refl a in cc
]

All-sym :
    (id : String) (js : List Job)
    → All (λ i. str_eq id i.id ≡ false) js
    → All (λ i. str_eq i.id id ≡ false) js
All-sym id [] h = tt
All-sym id (j ∷ js) h = (str_eq_sym id j.id h.0, All-sym id js h.1)

pub Only-find : (id : String) (j : Job) (js : List Job) → Only id j js → find_job id js ≡ some j
unfolding find_job
Only-find id j [] h = absurd h
Only-find id j (k ∷ js) (inl h) = rw h.0 (ap some h.1)
Only-find id j (k ∷ js) (inr h) = rw h.0 (Only-find id j js h.1)

abbrev pub one_if : Bool → ℕ
one_if true = 1
one_if false = 0

-- a statement that selects by the identifier, among others
module _ (id : String) (test : Job → Bool)
    (sub : (k : Job) → test k ≡ true → str_eq k.id id ≡ true) where
  unselected : (k : Job) → str_eq k.id id ≡ false → test k ≡ false
  unselected k h = elim (Bool-cases (test k)) [ inr n ↦ n | inl y ↦ let y' = sub k y in cc ]

  All-unselected :
      (js : List Job) → All (λ i. str_eq i.id id ≡ false) js → All (λ i. test i ≡ false) js
  All-unselected [] h = tt
  All-unselected (k ∷ js) h = (unselected k h.0, All-unselected js h.1)

  pub others_kept :
      (f : Job → Job) (js : List Job)
      → All (λ i. str_eq i.id id ≡ false) js
      → update_where test f js ≡ js
  unfolding update_where
  others_kept f [] h = refl
  others_kept f (k ∷ js) h = rw (unselected k h.0, others_kept f js h.1) refl

  pub Only-update :
      (f : Job → Job) (j : Job) (js : List Job)
      → test j ≡ true
      → str_eq (f j).id id ≡ true
      → Only id j js
      → Only id (f j) (update_where test f js)
  unfolding update_where
  Only-update f j [] t i h = absurd h
  Only-update f j (k ∷ js) t i (inl h) =
      let t' : test k ≡ true = ap test h.1 ∙ t in
      inl (
        rw (t', h.1) i,
        rw (t', h.1) refl,
        subst (All (λ l. str_eq l.id id ≡ false)) (sym (others_kept f js h.2)) h.2,
      )
  Only-update f j (k ∷ js) t i (inr h) =
      let n = unselected k h.0 in inr (rw n h.0, Only-update f j js t i h.1)

  pub Only-count :
      (j : Job) (js : List Job) → test j ≡ true → Only id j js → count_where test js ≡ 1
  unfolding count_where
  Only-count j [] t h = absurd h
  Only-count j (k ∷ js) t (inl h) =
      let t' : test k ≡ true = ap test h.1 ∙ t in
      rw t' (ap suc (count_none test js (All-unselected js h.2)))
  Only-count j (k ∷ js) t (inr h) = rw (unselected k h.0) (Only-count j js t h.1)

  -- how many rows satisfy a test changes by that row alone
  pub count-update :
      (p : Job → Bool) (f : Job → Job) (j : Job) (js : List Job)
      → test j ≡ true
      → Only id j js
      → count_where p (update_where test f js) + one_if (p j) ≡ count_where p js + one_if (p (f j))
  unfolding update_where count_where
  count-update p f j [] t h = absurd h
  count-update p f j (k ∷ js) t (inl h) =
      let t' : test k ≡ true = ap test h.1 ∙ t in rw (t', h.1, others_kept f js h.2) (ground arith)
  count-update p f j (k ∷ js) t (inr h) =
      let n = unselected k h.0 in rw n (ground (arith, count-update p f j js t h.1))

Apart-ids :
    (k : Job) (js : List Job)
    → All (Apart (key_of k)) (map key_of js)
    → All (λ i. str_eq k.id i.id ≡ false) js
Apart-ids k [] h = tt
Apart-ids k (j ∷ js) h = (h.0.ids, Apart-ids k js h.1)

pub Distinct-Only :
    (j : Job) (js : List Job) → Memᴰ j js → Distinct (map key_of js) → Only j.id j js
Distinct-Only j [] m d = elim m [ ]
Distinct-Only j (k ∷ js) (Memᴰ.head e) d =
    subst (λ i. Only i.id i (k ∷ js)) (sym e)
      (inl (eq_refl k.id, refl, All-sym k.id js (Apart-ids k js d.0)))
Distinct-Only j (k ∷ js) (Memᴰ.tail m) d =
    inr
      (All-mem (λ i. str_eq k.id i.id ≡ false) js m (Apart-ids k js d.0), Distinct-Only j js m d.1)

other_ids :
    (id : String) (test : Job → Bool) (f : Job → Job)
    → ((k : Job) → (f k).id ≡ k.id)
    → (js : List Job) → All (λ i. str_eq i.id id ≡ false) js
    → All (λ i. str_eq i.id id ≡ false) (update_where test f js)
unfolding update_where
other_ids id test f same [] h = tt
other_ids id test f same (k ∷ js) h = (
  elim (Bool-cases (test k)) [
    | inl y ↦ rw y (ap (λ i. str_eq i id) (same k) ∙ h.0)
    | inr n ↦ rw n h.0
  ],
  other_ids id test f same js h.1,
)

-- the row after an UPDATE that may select it or not
abbrev pub updated_row : (Job → Bool) → (Job → Job) → Job → Job
updated_row test f j = if test j then f j else j

pub Only-through :
    (id : String) (test : Job → Bool) (f : Job → Job) (j : Job)
    → ((k : Job) → (f k).id ≡ k.id)
    → (js : List Job) → Only id j js
    → Only id (updated_row test f j) (update_where test f js)
unfolding update_where
Only-through id test f j same [] h = absurd h
Only-through id test f j same (k ∷ js) (inl h) = elim (Bool-cases (test k)) [
  | inl y ↦
      let y' : test j ≡ true = ap test (sym h.1) ∙ y in
      rw (y, y')
        (inl (ap (λ i. str_eq i id) (same k) ∙ h.0, ap f h.1, other_ids id test f same js h.2))
  | inr n ↦
      let n' : test j ≡ false = ap test (sym h.1) ∙ n in
      rw (n, n') (inl (h.0, h.1, other_ids id test f same js h.2))
]
Only-through id test f j same (k ∷ js) (inr h) =
    let rest = Only-through id test f j same js h.1 in
    elim (Bool-cases (test k)) [
      | inl y ↦ rw y (inr (ap (λ i. str_eq i id) (same k) ∙ h.0, rest))
      | inr n ↦ rw n (inr (h.0, rest))
    ]

-- an identifier that a statement does not select
pub Only-other :
    (id : String) (test : Job → Bool) (f : Job → Job) (j : Job)
    → ((k : Job) → (f k).id ≡ k.id)
    → test j ≡ false
    → (js : List Job) → Only id j js
    → Only id j (update_where test f js)
Only-other id test f j same n js h =
    subst (λ k. Only id k (update_where test f js)) (rw n refl) (Only-through id test f j same js h)

-- the one row with the identifier
pub Only-mem :
    (id : String) (j k : Job) (js : List Job)
    → Only id j js
    → Memᴰ k js
    → str_eq k.id id ≡ true
    → k ≡ j
Only-mem id j k [] h m y = absurd h
Only-mem id j k (i ∷ js) (inl h) (Memᴰ.head e) y = e ∙ h.1
Only-mem id j k (i ∷ js) (inl h) (Memᴰ.tail m) y =
    let n = All-mem (λ l. str_eq l.id id ≡ false) js m h.2 in absurd (ground arith)
Only-mem id j k (i ∷ js) (inr h) (Memᴰ.head e) y =
    let y' = ap (λ (l : Job). str_eq l.id id) (sym e) ∙ y in absurd (ground arith)
Only-mem id j k (i ∷ js) (inr h) (Memᴰ.tail m) y = Only-mem id j k js h.1 m y

-- what holds of that row, and of every row with another identifier
pub Only-All {κ} :
    (P : Job → Type κ) (id : String) (j : Job) (js : List Job)
    → Only id j js
    → P j
    → ((k : Job) → str_eq k.id id ≡ false → P k)
    → All P js
Only-All P id j [] h p o = absurd h
Only-All P id j (k ∷ js) (inl h) p o = (subst P (sym h.1) p, others js h.2)
  where
    others : (ks : List Job) → All (λ i. str_eq i.id id ≡ false) ks → All P ks
    others [] t = tt
    others (i ∷ ks) t = (o i t.0, others ks t.1)
Only-All P id j (k ∷ js) (inr h) p o = (o k h.0, Only-All P id j js h.1 p o)

pub Only-id : (id : String) (j : Job) (js : List Job) → Only id j js → str_eq j.id id ≡ true
Only-id id j [] h = absurd h
Only-id id j (k ∷ js) (inl h) = ap (λ (i : Job). str_eq i.id id) (sym h.1) ∙ h.0
Only-id id j (k ∷ js) (inr h) = Only-id id j js h.1

pub Only-Mem : (id : String) (j : Job) (js : List Job) → Only id j js → Memᴰ j js
Only-Mem id j [] h = absurd h
Only-Mem id j (k ∷ js) (inl h) = Memᴰ.head (sym h.1)
Only-Mem id j (k ∷ js) (inr h) = Memᴰ.tail (Only-Mem id j js h.1)

-- ===== src/Jobs/Rows.antt =====
-- The rows that the statements of go/durable_jobs.go touch: what an UPDATE and a SELECT by a test
-- keep and find.
use mathlib.Core.List.{Memᴰ}
use erdai_agent.Prelude.{
  Bool, true, false, String, some, str_eq, List, [], ◌∷◌, All, ◌≡◌, inl, inr, arith, Bool-cases,
  sym, subst, ◌<◌,
}
use erdai_agent.Jobs.Store.{Job, find_job, update_where, count_where}

module _ (test : Job → Bool) where
  -- An update keeps a property that it keeps on each row of its test.
  pub All-update_where {ℓ} :
      (P : Job → Type ℓ) (f : Job → Job) (js : List Job)
      → All P js
      → All (λ j. test j ≡ true → P j → P (f j)) js
      → All P (update_where test f js)
  unfolding update_where
  All-update_where P f [] h k = tt
  All-update_where P f (j ∷ js) h k = (
    elim (Bool-cases (test j)) [ inl e ↦ rw e (k.0 e h.0) | inr e ↦ rw e h.0 ],
    All-update_where P f js h.1 k.1,
  )

  pub All-of {ℓ} : (P : Job → Type ℓ) (js : List Job) → ((j : Job) → P j) → All P js
  All-of P [] h = tt
  All-of P (j ∷ js) h = (h j, All-of P js h)

  count_zero : (js : List Job) → count_where test js ≡ 0 → All (λ j. test j ≡ false) js
  unfolding count_where
  count_zero [] h = tt
  count_zero (j ∷ js) h = (ground arith, count_zero js (ground arith))

  All-not {ℓ} :
      (P : Job → Type ℓ) (js : List Job)
      → All (λ j. test j ≡ false) js
      → All (λ j. test j ≡ true → P j) js
  All-not P [] h = tt
  All-not P (j ∷ js) h = (λ e. cc, All-not P js h.1)

  pub count_pos : (j : Job) (js : List Job) → Memᴰ j js → test j ≡ true → 0 < count_where test js
  unfolding count_where
  count_pos j [] m t = elim m [ ]
  count_pos j (k ∷ js) (Memᴰ.head e) t = let t' = rw e at t in rw t' (omega arith)
  count_pos j (k ∷ js) (Memᴰ.tail m) t = ground (arith, count_pos j js m t)

  -- The row that a test picks is the only one where the statement affects one row.
  pub sole {ℓ} :
      (P : Job → Type ℓ) (j : Job) (js : List Job)
      → Memᴰ j js
      → test j ≡ true
      → count_where test js ≡ 1
      → P j
      → All (λ k. test k ≡ true → P k) js
  unfolding count_where
  sole P j [] m t c p = tt
  sole P j (k ∷ js) (Memᴰ.head e) t c p = (
    λ _. subst P e p,
    All-not P js (count_zero js (let t' = rw e at t in let c' = rw t' at c in omega arith)),
  )
  sole P j (k ∷ js) (Memᴰ.tail m) t c p = elim (Bool-cases (test k)) [
    | inl e ↦ absurd (let c' = rw e at c in omega (arith, count_pos j js m t))
    | inr e ↦ (λ e'. cc, sole P j js m t (let c' = rw e at c in c') p)
  ]

pub find-mem : (id : String) (js : List Job) {j : Job} → find_job id js ≡ some j → Memᴰ j js
unfolding find_job
find-mem id [] h = cc
find-mem id (k ∷ js) h = elim (Bool-cases (str_eq k.id id)) [
  | inl e ↦ Memᴰ.head (ground (arith, h))
  | inr e ↦ Memᴰ.tail (find-mem id js (ground arith))
]

pub All-mem {ℓ} : (P : Job → Type ℓ) {j : Job} (js : List Job) → Memᴰ j js → All P js → P j
All-mem P [] m h = elim m [ ]
All-mem P (k ∷ js) (Memᴰ.head e) h = subst P (sym e) h.0
All-mem P (k ∷ js) (Memᴰ.tail m) h = All-mem P js m h.1

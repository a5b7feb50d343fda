-- ===== src/Jobs/Drained.antt =====
-- A worker of go/durable_jobs.go that keeps going settles every job that it can claim.
use mathlib.Core.List.{Memᴰ}
use erdai_agent.Prelude.{
  ℕ, suc, ◌≤◌, true, false, String, none, some, str_eq, List, [], ◌∷◌, length, All, ◌≡◌, refl, inl,
  inr, arith, Option-cases, Bool-cases, sym, subst, ap, ◌∙◌, map, eq_iff,
}
use erdai_agent.Jobs.Store.{Job, find_job, count_where}
use erdai_agent.Jobs.Worker.{pick, claimable, claim_job}
use erdai_agent.Core.{Env}
use erdai_agent.Jobs.Identity.{Distinct, key_of}
use erdai_agent.Jobs.Rows.{count_pos, find-mem}
use erdai_agent.Jobs.Claim.{pick-claimable}
use erdai_agent.Jobs.WorkerLoop.{Tables, Reads, Call, run_one, Round, run_all}
use erdai_agent.Jobs.Only.{Only, Only-find, Only-mem, Only-Mem, Distinct-Only}
use erdai_agent.Jobs.Statements.{Encrypts}
use erdai_agent.Jobs.Moved.{Settled}
use erdai_agent.Jobs.Liveness.{run_one-Moved}

idle : (n : ℕ) (js : List Job) → count_where (claimable n) js ≡ 0 → pick n js ≡ none
idle n js h = elim (Option-cases (pick n js)) [
  | inl p ↦ p
  | inr (j, p) ↦
      let (mem, y) = pick-claimable n js p in
      absurd (omega (arith, count_pos (claimable n) j js mem y))
]

run_one-idle :
    (r : Reads) (call : Call) (e : Env) (ticks : List Env) (e' : Env) (t : Tables)
    → pick e.now t.store.jobs ≡ none
    → run_one r call e ticks e' t ≡ t
unfolding run_one claim_job
run_one-idle r call e ticks e' t p = rw p refl

-- the rounds claim at one time, and the cipher works
abbrev pub ClaimsAt : ℕ → Round → Type 0
ClaimsAt n x = (x.claimed.now ≡ n) × Encrypts x.claimed × Encrypts x.ended

run_all-idle :
    (r : Reads) (call : Call) (n : ℕ) (xs : List Round) (t : Tables)
    → All (ClaimsAt n) xs
    → pick n t.store.jobs ≡ none
    → run_all r call xs t ≡ t
unfolding run_all
run_all-idle r call n [] t h p = refl
run_all-idle r call n (x ∷ xs) t h p =
    let q = subst (λ m. pick m t.store.jobs ≡ none) (sym h.0.0) p in
    ap (run_all r call xs) (run_one-idle r call x.claimed x.ticks x.ended t q)
    ∙ run_all-idle r call n xs t h.1 p

unpicked : (n : ℕ) (j : Job) (js : List Job) → pick n js ≡ none → Memᴰ j js → claimable n j ≡ false
unfolding pick
unpicked n j [] p m = elim m [ ]
unpicked n j (k ∷ js) p m = elim (Bool-cases (claimable n k)) [
  | inl y ↦
      absurd (elim (Option-cases (pick n js)) [ inl q ↦ ground arith | inr (i, q) ↦ ground arith ])
  | inr z ↦
      let p' : pick n js ≡ none = ground arith in
      elim m [ Memᴰ.head e ↦ ap (claimable n) e ∙ z | Memᴰ.tail m' ↦ unpicked n j js p' m' ]
]

module _ (r : Reads) (call : Call) (n : ℕ) where
  -- a job that cannot be claimed stays as it is
  run_all-kept :
      (xs : List Round) (t : Tables) (id : String) (k : Job)
      → All (ClaimsAt n) xs
      → Distinct (map key_of t.store.jobs)
      → Only id k t.store.jobs
      → claimable n k ≡ false
      → Only id k (run_all r call xs t).store.jobs
  unfolding run_all
  run_all-kept [] t id k h d o c = o
  run_all-kept (x ∷ xs) t id k h d o c = elim (Option-cases (pick n t.store.jobs)) [
    | inl p ↦ subst (λ u. Only id k u.store.jobs) (sym (run_all-idle r call n (x ∷ xs) t h p)) o
    | inr (j, p) ↦
        let q = subst (λ m. pick m t.store.jobs ≡ some j) (sym h.0.0) p in
        let (l, settled, m) = run_one-Moved r call x.claimed x.ticks x.ended h.0.1 h.0.2 t j q d in
        let (mem, y) = pick-claimable n t.store.jobs p in
        elim (Bool-cases (str_eq j.id id)) [
          | inl z ↦
              let same : j ≡ k = Only-mem id k j t.store.jobs o mem z in
              let y' = ap (claimable n) (sym same) ∙ y in absurd (ground arith)
          | inr z ↦
              run_all-kept xs (run_one r call x.claimed x.ticks x.ended t) id k h.1
                (subst Distinct (sym m.keys) d) (m.rest id k z o) c
        ]
  ]

  run_all-each :
      (xs : List Round) (t : Tables) (id : String) (j : Job)
      → All (ClaimsAt n) xs
      → Distinct (map key_of t.store.jobs)
      → count_where (claimable n) t.store.jobs ≤ length xs
      → Only id j t.store.jobs
      → claimable n j ≡ true
      → (k : Job) × Only id k (run_all r call xs t).store.jobs × Settled (suc j.attempts) k
  unfolding run_all
  run_all-each [] t id j h d c o y =
      absurd
        (omega (arith, count_pos (claimable n) j t.store.jobs (Only-Mem id j t.store.jobs o) y))
  run_all-each (x ∷ xs) t id j h d c o y = elim (Option-cases (pick n t.store.jobs)) [
    | inl p ↦
        let z = unpicked n j t.store.jobs p (Only-Mem id j t.store.jobs o) in absurd (ground arith)
    | inr (i, p) ↦
        let q = subst (λ m. pick m t.store.jobs ≡ some i) (sym h.0.0) p in
        let (l, settled, m) = run_one-Moved r call x.claimed x.ticks x.ended h.0.1 h.0.2 t i q d in
        let (mem, yi) = pick-claimable n t.store.jobs p in
        let t' = run_one r call x.claimed x.ticks x.ended t in
        let d' = subst Distinct (sym m.keys) d in
        elim (Bool-cases (str_eq i.id id)) [
          | inl z ↦
              let same : i ≡ j = Only-mem id j i t.store.jobs o mem z in
              let o' = subst (λ key. Only key l t'.store.jobs) ((eq_iff i.id id).0 z) m.only in
              (
                l,
                run_all-kept xs t' id l h.1 d' o' (settled.unclaimed n),
                subst (λ (v : Job). Settled (suc v.attempts) l) same settled,
              )
          | inr z ↦
              let moved = m.counts (claimable n) in
              let moved' = rw (yi, settled.unclaimed n) at moved in
              run_all-each xs t' id j h.1 d' (omega arith) (m.rest id j z o) y
        ]
  ]

  run_all-none :
      (xs : List Round) (t : Tables)
      → All (ClaimsAt n) xs
      → Distinct (map key_of t.store.jobs)
      → count_where (claimable n) t.store.jobs ≤ length xs
      → pick n (run_all r call xs t).store.jobs ≡ none
  unfolding run_all
  run_all-none [] t h d c = idle n t.store.jobs (omega arith)
  run_all-none (x ∷ xs) t h d c = elim (Option-cases (pick n t.store.jobs)) [
    | inl p ↦ subst (λ u. pick n u.store.jobs ≡ none) (sym (run_all-idle r call n (x ∷ xs) t h p)) p
    | inr (j, p) ↦
        let q = subst (λ m. pick m t.store.jobs ≡ some j) (sym h.0.0) p in
        let (k, settled, m) = run_one-Moved r call x.claimed x.ticks x.ended h.0.1 h.0.2 t j q d in
        let (_, y) = pick-claimable n t.store.jobs p in
        let moved = m.counts (claimable n) in
        let moved' = rw (y, settled.unclaimed n) at moved in
        run_all-none xs (run_one r call x.claimed x.ticks x.ended t) h.1
          (subst Distinct (sym m.keys) d) (omega arith)
  ]

-- As many undisturbed rounds as jobs can be claimed at a time leave no job to claim at that time, and
-- settle every job that could be claimed: each of them is there afterwards, held by nobody, not
-- claimable at any time before someone queues it again, and exactly one attempt older. The keys of the
-- table have to be distinct, and the cipher has to work.
pub run_all-drains :
    (r : Reads) (call : Call) (n : ℕ) (xs : List Round) (t : Tables)
    → All (ClaimsAt n) xs
    → Distinct (map key_of t.store.jobs)
    → count_where (claimable n) t.store.jobs ≤ length xs
    → (pick n (run_all r call xs t).store.jobs ≡ none)
      × ((j : Job)
          → find_job j.id t.store.jobs ≡ some j
          → claimable n j ≡ true
          → (k : Job) × (find_job j.id (run_all r call xs t).store.jobs ≡ some k)
            × Settled (suc j.attempts) k)
run_all-drains r call n xs t h d c = (
  run_all-none r call n xs t h d c,
  λ j f y.
      let o = Distinct-Only j t.store.jobs (find-mem j.id t.store.jobs f) d in
      let (k, o', settled) = run_all-each r call n xs t j.id j h d c o y in
      (k, Only-find j.id k _ o', settled),
)

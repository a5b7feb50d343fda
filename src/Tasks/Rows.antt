-- ===== src/Tasks/Rows.antt =====
-- What the statements of go/task_graph.go do to the receipts: which row a medium finds, and its status.
use text.Mathlib.TextPositions.{eq_refl}
use erdai_agent.Prelude.{
  Bool, true, ◌&&◌, String, none, some, ◌≡◌, refl, arith, List, [], ◌∷◌, inl, inr, ◌⊎◌, Bool-cases,
  Option-cases, subst, sym, ap, ◌∙◌, str_eq,
}
use erdai_agent.Tasks.Store.{Receipt, find_step, put_step, update_step}
use erdai_agent.Tasks.Operation.{first_of_medium, of_medium, id_or}

-- a change of a row that keeps what its medium is found by
pub record Keeps (f : Receipt → Receipt) : Type 0 where
  pub id : (s : Receipt) → (f s).id ≡ s.id
  pub run : (s : Receipt) → (f s).run_id ≡ s.run_id
  pub name : (s : Receipt) → (f s).name ≡ s.name

of-Keeps :
    (f : Receipt → Receipt) (run : String) (video : Bool)
    → Keeps f
    → (s : Receipt)
    → (str_eq (f s).run_id run && of_medium video (f s).name)
      ≡ (str_eq s.run_id run && of_medium video s.name)
of-Keeps f run video k s =
    ap (λ r. str_eq r run && of_medium video (f s).name) (k.run s)
    ∙ ap (λ n. str_eq s.run_id run && of_medium video n) (k.name s)

medium-put_some :
    (run : String) (video : Bool) (id : String) (fresh : Receipt) (f : Receipt → Receipt)
    → Keeps f
    → (ss : List Receipt) {i : String} → first_of_medium run video ss ≡ some i
    → first_of_medium run video (put_step id fresh f ss) ≡ some i
unfolding first_of_medium put_step
medium-put_some run video id fresh f k [] h = cc
medium-put_some run video id fresh f k (s ∷ ss) {i} h = elim (Bool-cases (str_eq s.id id)) [
  | inl y ↦ rw y (rw (of-Keeps f run video k s, k.id s) h)
  | inr n ↦ rw n (elim (Bool-cases (str_eq s.run_id run && of_medium video s.name)) [
    | inl m ↦ rw m (ground arith)
    | inr m ↦ rw m (medium-put_some run video id fresh f k ss {i = i} (ground arith))
  ])
]

medium-put_none :
    (run : String) (video : Bool) (id : String) (fresh : Receipt) (f : Receipt → Receipt)
    → Keeps f
    → fresh.id ≡ id
    → (ss : List Receipt) → first_of_medium run video ss ≡ none
    → (first_of_medium run video (put_step id fresh f ss) ≡ none)
      ⊎ (first_of_medium run video (put_step id fresh f ss) ≡ some id)
unfolding first_of_medium put_step
medium-put_none run video id fresh f k e [] h =
    elim (Bool-cases (str_eq fresh.run_id run && of_medium video fresh.name)) [
      | inl m ↦ inr (rw m (ap some e))
      | inr m ↦ inl (rw m refl)
    ]
medium-put_none run video id fresh f k e (s ∷ ss) h =
    elim (Bool-cases (str_eq s.run_id run && of_medium video s.name)) [
      | inl m ↦ absurd (ground arith)
      | inr m ↦
          let rest : first_of_medium run video ss ≡ none = ground arith in
          elim (Bool-cases (str_eq s.id id)) [
            | inl y ↦ inl (rw y (rw (of-Keeps f run video k s, m) rest))
            | inr n ↦ rw n (rw m (medium-put_none run video id fresh f k e ss rest))
          ]
    ]

-- the identifier that a medium is given stays what it was after its receipt was put
pub medium-put :
    (run : String) (video : Bool) (fallback : String) (fresh : Receipt) (f : Receipt → Receipt)
    → Keeps f
    → (ss : List Receipt)
    → let id = id_or (first_of_medium run video ss) fallback in
      fresh.id ≡ id → id_or (first_of_medium run video (put_step id fresh f ss)) fallback ≡ id
medium-put run video fallback fresh f k ss e = elim (Option-cases (first_of_medium run video ss)) [
  | inr (i, p) ↦
      ap (λ o. id_or o fallback)
        (medium-put_some run video (id_or (first_of_medium run video ss) fallback) fresh f k ss p
          ∙ sym p)
  | inl p ↦
      let q : id_or (first_of_medium run video ss) fallback ≡ fallback =
        ap (λ o. id_or o fallback) p in
      elim (medium-put_none run video (id_or (first_of_medium run video ss) fallback) fresh f k e ss
        p) [ inl n ↦ ap (λ o. id_or o fallback) n ∙ sym q | inr y ↦ ap (λ o. id_or o fallback) y ]
]

pub put-find :
    (id : String) (fresh : Receipt) (f : Receipt → Receipt)
    → Keeps f
    → fresh.id ≡ id
    → fresh.status ≡ "running"
    → ((s : Receipt) → (f s).status ≡ "running")
    → (ss : List Receipt)
    → (x : Receipt) × (find_step id (put_step id fresh f ss) ≡ some x) × (x.status ≡ "running")
unfolding find_step put_step
put-find id fresh f k e p q [] =
    let y : str_eq fresh.id id ≡ true = subst (λ i. str_eq i id ≡ true) (sym e) (eq_refl id) in
    (fresh, rw y refl, p)
put-find id fresh f k e p q (s ∷ ss) = elim (Bool-cases (str_eq s.id id)) [
  | inl y ↦
      let y' : str_eq (f s).id id ≡ true = subst (λ i. str_eq i id ≡ true) (sym (k.id s)) y in
      (f s, rw y (rw y' refl), q s)
  | inr n ↦ let (x, a, b) = put-find id fresh f k e p q ss in (x, rw n (rw n a), b)
]

pub medium-update :
    (run : String) (video : Bool) (id : String) (f : Receipt → Receipt)
    → Keeps f
    → (ss : List Receipt)
    → first_of_medium run video (update_step id f ss) ≡ first_of_medium run video ss
unfolding first_of_medium update_step
medium-update run video id f k [] = refl
medium-update run video id f k (s ∷ ss) = elim (Bool-cases (str_eq s.id id)) [
  | inl y ↦ rw y (rw (of-Keeps f run video k s, k.id s, medium-update run video id f k ss) refl)
  | inr n ↦ rw n (rw (medium-update run video id f k ss) refl)
]

pub find-update :
    (id : String) (f : Receipt → Receipt)
    → Keeps f
    → (ss : List Receipt) {x : Receipt} → find_step id ss ≡ some x
    → find_step id (update_step id f ss) ≡ some (f x)
unfolding find_step update_step
find-update id f k [] h = cc
find-update id f k (s ∷ ss) {x} h = elim (Bool-cases (str_eq s.id id)) [
  | inl y ↦
      let e : s ≡ x = ground arith in
      let y' : str_eq (f s).id id ≡ true = subst (λ i. str_eq i id ≡ true) (sym (k.id s)) y in
      rw y (rw y' (ap (λ v. some (f v)) e))
  | inr n ↦
      let h' : find_step id ss ≡ some x = ground arith in rw n (rw n (find-update id f k ss h'))
]

-- ===== src/Search/Rows.antt =====
-- What the statements on `agent_search_queries` do to the receipt of a query and to the number of the
-- receipts of a run.
use erdai_agent.Prelude.{
  ℕ, ◌≤◌, ltb, Bool, true, false, ◌&&◌, String, some, str_eq, List, [], ◌∷◌, ◌≡◌, refl, arith, inl,
  inr, Bool-cases, subst, sym, ap, ◌∙◌, eq_iff,
}
use erdai_agent.Search.Store.{
  Query, find_query, count_queries, update_query, delete_queries, is_query, is_running, known,
  add_query,
}
use erdai_agent.Search.Recover.{move_receipts}

-- a change of a row that keeps its key
pub record KeepsKey (f : Query → Query) : Type 0 where
  pub run : (q : Query) → (f q).run_id ≡ q.run_id
  pub hash : (q : Query) → (f q).query_hash ≡ q.query_hash

keeps_query :
    (run hash : String) (f : Query → Query)
    → KeepsKey f
    → (q : Query) → is_query run hash (f q) ≡ is_query run hash q
keeps_query run hash f k q =
    ap (λ t. str_eq t run && str_eq (f q).query_hash hash) (k.run q)
    ∙ ap (λ t. str_eq q.run_id run && str_eq t hash) (k.hash q)

pub running_succeeded : (s : String) → str_eq s "running" ≡ true → str_eq s "succeeded" ≡ false
running_succeeded s h =
    subst (λ t. str_eq t "succeeded" ≡ false) (sym ((eq_iff s "running").0 h)) refl

find-new :
    (run hash : String) (x : Query) (qs : List Query) {q : Query}
    → known (find_query x.run_id x.query_hash qs) ≡ false
    → find_query run hash qs ≡ some q
    → find_query run hash (x ∷ qs) ≡ some q
unfolding find_query
find-new run hash x qs {q} new h = elim (Bool-cases (is_query run hash x)) [
  | inl y ↦
      let r : x.run_id ≡ run = (eq_iff x.run_id run).0 (ground arith) in
      let s : x.query_hash ≡ hash = (eq_iff x.query_hash hash).0 (ground arith) in
      let old : known (find_query run hash qs) ≡ false =
        subst (λ t. known (find_query run t qs) ≡ false) s
          (subst (λ t. known (find_query t x.query_hash qs) ≡ false) r new) in
      absurd (ground arith)
  | inr n ↦ rw n h
]

-- An INSERT OR IGNORE leaves a receipt that is there.
pub find-add :
    (run hash : String) (x : Query) (qs : List Query) {q : Query}
    → find_query run hash qs ≡ some q
    → find_query run hash (add_query x qs) ≡ some q
find-add run hash x qs {q} h = elim (Bool-cases (known (find_query x.run_id x.query_hash qs))) [
  | inl y ↦ rw y h
  | inr n ↦ rw n (find-new run hash x qs n h)
]

pub find-move :
    (run hash : String) (older qs : List Query) {q : Query}
    → find_query run hash qs ≡ some q
    → find_query run hash (move_receipts older qs) ≡ some q
unfolding move_receipts
find-move run hash [] qs h = h
find-move run hash (x ∷ older) qs {q} h =
    elim (Bool-cases (known (find_query x.run_id x.query_hash qs))) [
      | inl y ↦ rw y (find-move run hash older qs h)
      | inr n ↦ rw n (find-move run hash older (x ∷ qs) (find-new run hash x qs n h))
    ]

-- An UPDATE of running receipts leaves one that succeeded.
pub find-update :
    (run hash other key : String) (f : Query → Query)
    → KeepsKey f
    → (qs : List Query) {q : Query} → find_query run hash qs ≡ some q
    → str_eq q.status "succeeded" ≡ true
    → find_query run hash (update_query other key f qs) ≡ some q
unfolding find_query update_query
find-update run hash other key f k [] h done = cc
find-update run hash other key f k (x ∷ qs) {q} h done = elim (Bool-cases (is_query run hash x)) [
  | inl y ↦
      let e : x ≡ q = ground arith in
      elim (Bool-cases (is_running other key x)) [
        | inl r ↦
            let s : str_eq x.status "succeeded" ≡ false =
              running_succeeded x.status (ground arith) in
            absurd (ground arith)
        | inr r ↦ rw r (rw y (ap some e))
      ]
  | inr n ↦
      let rest : find_query run hash qs ≡ some q = ground arith in
      elim (Bool-cases (is_running other key x)) [
        | inl r ↦
            rw r (
              rw (keeps_query run hash f k x ∙ n) (find-update run hash other key f k qs rest done))
        | inr r ↦ rw r (rw n (find-update run hash other key f k qs rest done))
      ]
]

-- A DELETE leaves a receipt that its test does not hold for.
pub find-delete :
    (run hash : String) (drop : Query → Bool) (qs : List Query) {q : Query}
    → find_query run hash qs ≡ some q
    → drop q ≡ false
    → find_query run hash (delete_queries drop qs) ≡ some q
unfolding find_query delete_queries
find-delete run hash drop [] h keep = cc
find-delete run hash drop (x ∷ qs) {q} h keep = elim (Bool-cases (is_query run hash x)) [
  | inl y ↦
      let e : x ≡ q = ground arith in
      let keep' : drop x ≡ false = ap drop e ∙ keep in rw keep' (rw y (ap some e))
  | inr n ↦
      let rest : find_query run hash qs ≡ some q = ground arith in
      elim (Bool-cases (drop x)) [
        | inl d ↦ rw d (find-delete run hash drop qs rest keep)
        | inr d ↦ rw d (rw n (find-delete run hash drop qs rest keep))
      ]
]

-- the receipt that the UPDATE of a search that ended leaves
pub find-settle :
    (run hash : String) (f : Query → Query)
    → KeepsKey f
    → (qs : List Query) {q : Query} → find_query run hash qs ≡ some q
    → str_eq q.status "running" ≡ true
    → find_query run hash (update_query run hash f qs) ≡ some (f q)
unfolding find_query update_query
find-settle run hash f k [] h r = cc
find-settle run hash f k (x ∷ qs) {q} h r = elim (Bool-cases (is_query run hash x)) [
  | inl y ↦
      let e : x ≡ q = ground arith in
      let r' : str_eq x.status "running" ≡ true =
        ap (λ (v : Query). str_eq v.status "running") e ∙ r in
      rw (y, r') (rw (keeps_query run hash f k x ∙ y) (ap (λ v. some (f v)) e))
  | inr n ↦
      let rest : find_query run hash qs ≡ some q = ground arith in
      rw n (rw n (find-settle run hash f k qs rest r))
]

pub count-update :
    (run other key : String) (f : Query → Query)
    → KeepsKey f
    → (qs : List Query) → count_queries run (update_query other key f qs) ≡ count_queries run qs
unfolding count_queries update_query
count-update run other key f k [] = refl
count-update run other key f k (x ∷ qs) = elim (Bool-cases (is_running other key x)) [
  | inl r ↦ rw r (rw (k.run x, count-update run other key f k qs) refl)
  | inr r ↦ rw r (rw (count-update run other key f k qs) refl)
]

pub count-delete :
    (run : String) (drop : Query → Bool) (qs : List Query)
    → count_queries run (delete_queries drop qs) ≤ count_queries run qs
unfolding count_queries delete_queries
count-delete run drop [] = omega arith
count-delete run drop (x ∷ qs) = ground (arith, count-delete run drop qs)

-- a new receipt, for a run that has fewer than its budget allows
pub count-new :
    (run : String) (x : Query) (qs : List Query) (budget : ℕ)
    → count_queries run qs ≤ budget
    → ltb (count_queries x.run_id qs) budget ≡ true
    → count_queries run (x ∷ qs) ≤ budget
unfolding count_queries
count-new run x qs budget h room = elim (Bool-cases (str_eq x.run_id run)) [
  | inl y ↦
      let room' : ltb (count_queries run qs) budget ≡ true =
        subst (λ t. ltb (count_queries t qs) budget ≡ true) ((eq_iff x.run_id run).0 y) room in
      rw y (ground arith)
  | inr n ↦ rw n h
]

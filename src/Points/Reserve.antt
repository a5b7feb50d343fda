-- ===== src/Points/Reserve.antt =====
-- `reservePointsOrder` of go/points_orders.go: a reservation takes points that are there, once for a
-- reference.
use text.Mathlib.TextPositions.{eq_refl}
use erdai_agent.Prelude.{
  ℕ, true, false, not, if◌then◌else◌, String, Option, none, some, ◌≡◌, arith, List, [], ◌∷◌, ℤ, pos,
  neg, ◌+ℤ◌, ◌≤ℤ◌, inl, inr, ◌⊎◌, Bool-cases, Option-cases, str_eq, eq_iff, ap, ap₂, ◌∙◌, sym,
  subst, ltb_ℤ, All,
}
use erdai_agent.Core.{Env, ok, >>=-eq-ok, guard, or_fail, or_fail-eq-ok, conflict, failed}
use erdai_agent.Points.Store.{
  Identity, IdentityRow, Order, Db, account_of, is_account, total, same_identity, canonical,
  balance, insert_entry,
}
use erdai_agent.Points.Accounts.{touch}
use erdai_agent.Points.Orders.{
  OrderInput, Reservation, check_order, find_order, same_order, first_identity, least, identity_lt,
  debit_entry, order_row, insert_order, place_order, reserve_in, reserve_order,
}
use erdai_agent.Points.Totals.{balance-total, part}
use erdai_agent.Points.Conserve.{points_of, insert_entry-points}

-- the primary key of `agent_points_identities`
abbrev pub Keyed : List IdentityRow → Type 0
Keyed [] = Unit {0}
Keyed (r ∷ rs) = All (λ q. same_identity r.identity q.identity ≡ false) rs × Keyed rs

-- some row gives the identity to the account
abbrev pub Row : String → Identity → List IdentityRow → Type 0
Row id i [] = ⊥
Row id i (r ∷ rs) = ((r.identity ≡ i) × (str_eq r.account_id id ≡ true)) ⊎ Row id i rs

least_cases : (a k : Identity) → (least a (some k) ≡ some a) ⊎ (least a (some k) ≡ some k)
least_cases a k = elim (Bool-cases (identity_lt k a)) [ inl y ↦ inr (rw y) | inr n ↦ inl (rw n) ]

pub first_identity-Row :
    (id : String) (rows : List IdentityRow) {i : Identity}
    → first_identity id rows ≡ some i
    → Row id i rows
unfolding first_identity
first_identity-Row id [] h = cc
first_identity-Row id (r ∷ rs) {i} h = elim (Bool-cases (str_eq r.account_id id)) [
  | inr n ↦ inr (first_identity-Row id rs (ground arith))
  | inl y ↦ elim (Option-cases (first_identity id rs)) [
    | inl p ↦ inl (ground arith, y)
    | inr (k, p) ↦ elim (least_cases r.identity k) [
      | inl q ↦ let e : r.identity ≡ i = ground arith in inl (e, y)
      | inr q ↦
          let e : k ≡ i = ground arith in
          inr (subst (λ v. Row id v rs) e (first_identity-Row id rs p))
    ]
  ]
]

pub same_identity_refl : (i : Identity) → same_identity i i ≡ true
same_identity_refl i = rw (eq_refl i.transport, eq_refl i.transport_instance, eq_refl i.sender_ref)

Row-apart :
    (id : String) (a i : Identity) (rows : List IdentityRow)
    → All (λ q. same_identity a q.identity ≡ false) rows
    → Row id i rows
    → same_identity a i ≡ false
Row-apart id a i [] h r = absurd r
Row-apart id a i (q ∷ rs) h (inl (e, y)) = subst (λ v. same_identity a v ≡ false) e h.0
Row-apart id a i (q ∷ rs) h (inr r) = Row-apart id a i rs h.1 r

pub Row-account_of :
    (id : String) (i : Identity) (rows : List IdentityRow)
    → Keyed rows
    → Row id i rows
    → is_account (account_of i rows) id ≡ true
unfolding account_of
Row-account_of id i [] k r = absurd r
Row-account_of id i (q ∷ rs) k (inl (e, y)) =
    let s = subst (λ v. same_identity q.identity v ≡ true) e (same_identity_refl q.identity) in
    rw s y
Row-account_of id i (q ∷ rs) k (inr r) =
    let s = Row-apart id q.identity i rs k.0 r in rw s (Row-account_of id i rs k.1 r)

pub is_account-only :
    (o : Option String) (id acc : String)
    → is_account o id ≡ true
    → is_account o acc ≡ str_eq id acc
is_account-only none id acc h = cc
is_account-only (some a) id acc h = ap (λ v. str_eq v acc) ((eq_iff a id).0 h)

-- what a reservation takes from an account
abbrev pub taken : Order → String → ℤ
taken o account = if str_eq o.account_id account then neg (pos o.points) else pos 0

pub insert_order-effect :
    (o : Order) (db : Db) {db' : Db}
    → insert_order o db ≡ ok db'
    → (db'.identities ≡ db.identities) × (db'.entries ≡ db.entries)
unfolding insert_order
insert_order-effect o db h = ground arith

enough :
    (available : ℤ) (n : ℕ)
    → guard (not (ltb_ℤ available (pos n))) (conflict "insufficient_points") ≡ ok tt
    → pos n ≤ℤ available
enough available n h = ground arith

pub record Placed (db db' : Db) (account : String) (r : Reservation) (o : Order) : Type 0 where
  pub afford : pos o.points ≤ℤ points_of db account
  pub at_account : o.account_id ≡ account
  pub amount : o.points ≡ r.points
  pub moves : (id : String) → points_of db' id ≡ points_of db id +ℤ taken o id

pub place_order-Placed :
    (e : Env) (db : Db) (account : String) (r : Reservation) {db' : Db} {o : Order}
    → Keyed db.identities
    → place_order e db account r ≡ ok (db', o)
    → Placed db db' account r o
unfolding place_order insert_order
place_order-Placed e db account r {db'} {o} k h =
    let (available, p, h₁) = >>=-eq-ok (balance db account) _ h in
    let (_, g, h₂) =
      >>=-eq-ok (guard (not (ltb_ℤ available (pos r.points))) (conflict "insufficient_points")) _
        h₁ in
    let (i, f, h₃) =
      >>=-eq-ok
        (or_fail (first_identity account db.identities) (failed "sql: no rows in result set")) _
        h₂ in
    let (id, _, h₄) = >>=-eq-ok (or_fail e.new_id (failed "random identifier")) _ h₃ in
    let (db₁, q, h₅) = >>=-eq-ok (insert_order (order_row e id account i r) db) _ h₄ in
    let (db₂, w, h₆) = >>=-eq-ok (insert_entry (debit_entry e id i r) db₁) _ h₅ in
    let (rows, entries) = insert_order-effect (order_row e id account i r) db q in
    let same : o ≡ order_row e id account i r = ground arith in
    let same' : db' ≡ db₂ = ground arith in
    let owner =
      Row-account_of account i db.identities k
        (first_identity-Row account db.identities (or_fail-eq-ok _ _ f)) in
    record {
      afford =
          subst (λ x. pos x.points ≤ℤ points_of db account) (sym same)
            (subst (λ v. pos r.points ≤ℤ v) (balance-total db account p)
              (enough available r.points g));
      at_account = ap (λ x. x.account_id) same;
      amount = ap (λ x. x.points) same;
      moves = λ acc.
          ap (λ d. points_of d acc) same'
          ∙ insert_entry-points (debit_entry e id i r) db₁ acc w
          ∙ ap₂ (λ rs xs. total rs acc xs +ℤ part rs acc (debit_entry e id i r)) rows entries
          ∙ ap (λ b. points_of db acc +ℤ (if b then neg (pos r.points) else pos 0))
              (is_account-only (account_of i db.identities) account acc owner)
          ∙ ap (λ x. points_of db acc +ℤ taken x acc) (sym same);
    }

-- A reservation that succeeds either finds the order of its reference, returns it and changes
-- nothing, or takes the order's points from one account that has them, so that its balance does not
-- fall below zero, and leaves every other balance as it was.
pub reserve_takes :
    (e : Env) (db : Db) (input : OrderInput) {db' : Db} {o : Order}
    → Keyed db.identities
    → reserve_order e db input ≡ ok (db', o)
    → (r : Reservation) × (check_order input ≡ ok r)
      × (((db' ≡ db) × (find_order r.source r.external_ref db.orders ≡ some o))
          ⊎ ((find_order r.source r.external_ref db.orders ≡ none)
              × (o.points ≡ r.points)
              × (pos o.points ≤ℤ points_of db o.account_id)
              × ((account : String)
                  → points_of db' account ≡ points_of db account +ℤ taken o account)))
unfolding reserve_order reserve_in
reserve_takes e db input {db'} {o} k h =
    let (r, c, h₁) = >>=-eq-ok (check_order input) _ h in
    let touched = record db { accounts = touch e r.account_id db.accounts } in
    let (account, _, h₂) = >>=-eq-ok (canonical touched r.account_id) _ h₁ in
    (
      r,
      c,
      elim (Option-cases (find_order r.source r.external_ref db.orders)) [
        | inr (x, f) ↦ elim (Bool-cases (same_order x account r)) [
          | inl y ↦ let q : o ≡ x = ground arith in inl (ground arith, f ∙ ap some (sym q))
          | inr n ↦ absurd (ground arith)
        ]
        | inl f ↦
            let g : place_order e touched account r ≡ ok (db', o) = ground arith in
            let p = place_order-Placed e touched account r k g in
            inr (
              f,
              p.amount,
              subst (λ a. pos o.points ≤ℤ points_of db a) (sym p.at_account) p.afford,
              p.moves,
            )
      ],
    )

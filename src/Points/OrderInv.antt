-- ===== src/Points/OrderInv.antt =====
-- Reservations and resolutions of go/points_orders.go: each keeps the invariant of the ledger.
use erdai_agent.Prelude.{
  ℕ, true, not, if◌then◌else◌, String, Option, none, some, ◌≡◌, refl, arith, List, [], ◌∷◌, ◌++◌, ℤ,
  pos, neg, ◌+ℤ◌, ◌≤ℤ◌, +ℤ_zero, int_laws, inl, inr, Bool-cases, Option-cases, str_eq, eq_iff, ap,
  ap₂, ◌∙◌, sym, subst, subst₂, ltb_ℤ, All,
}
use erdai_agent.Core.{Env, ok, >>=-eq-ok, guard, or_fail, or_fail-eq-ok, failed, conflict}
use erdai_agent.Points.Store.{
  Identity, Order, OrderStatus, reserved, committed, refunded, Db, account_of, is_account, total,
  balance, canonical, insert_entry,
}
use erdai_agent.Points.Accounts.{touch}
use erdai_agent.Points.Orders.{
  OrderInput, Reservation, reserve_order, reserve_in, place_order, find_order, find_by_id,
  check_order, first_identity, insert_order, debit_entry, order_row, refund_entry, resolved_row,
  update_order, resolve_order, credit, same_order,
}
use erdai_agent.Points.Totals.{part}
use erdai_agent.Points.Conserve.{points_of, resolve_in-effect}
use erdai_agent.Points.Settle.{resolve_order-in}
use erdai_agent.Points.Reserve.{
  Keyed, first_identity-Row, Row-account_of, is_account-only, place_order-Placed,
  insert_order-effect,
}
use erdai_agent.Points.Solvent.{Inv, Known, add_entry-Inv, All-snoc, is_known}
use erdai_agent.Points.Entries.{Inv-same, gain-Inv}

find_by_id-All :
    (P : Order → Type 0) (id : String) (os : List Order) {o : Order}
    → find_by_id id os ≡ some o
    → All P os
    → P o
unfolding find_by_id
find_by_id-All P id [] h v = cc
find_by_id-All P id (x ∷ os) {o} h v = elim (Bool-cases (str_eq x.id id)) [
  | inl y ↦ let e : x ≡ o = ground arith in subst P e v.0
  | inr n ↦ find_by_id-All P id os {o = o} (ground arith) v.1
]

update_order-All :
    (P : Identity → Type 0) (id : String) (f : Order → Order)
    → ((o : Order) → (f o).identity ≡ o.identity)
    → (os : List Order) → All (λ o. P o.identity) os
    → All (λ o. P o.identity) (update_order id f os)
unfolding update_order
update_order-All P id f k [] v = tt
update_order-All P id f k (o ∷ os) v = (
  elim (Bool-cases (str_eq o.id id)) [ inl y ↦ rw y (subst P (sym (k o)) v.0) | inr n ↦ rw n v.0 ],
  update_order-All P id f k os v.1,
)

settled-Inv :
    (db : Db) (id : String) (f : Order → Order)
    → ((o : Order) → (f o).identity ≡ o.identity)
    → Inv db
    → Inv (record db { orders = update_order id f db.orders })
settled-Inv db id f k v = record {
  keyed = v.keyed;
  entered = v.entered;
  ordered = update_order-All (Known db.identities) id f k db.orders v.ordered;
  solvent = v.solvent;
}

credit-Inv :
    (e : Env) (db : Db) (s : OrderStatus) (o : Order) (note : String) {db' : Db}
    → credit e db s o note ≡ ok db'
    → Known db.identities o.identity
    → Inv db
    → Inv db'
unfolding credit
credit-Inv e db reserved o note {db'} h k v = let q : db' ≡ db = ground arith in subst Inv (sym q) v
credit-Inv e db committed o note {db'} h k v =
    let q : db' ≡ db = ground arith in subst Inv (sym q) v
credit-Inv e db refunded o note {db'} h k v =
    let (u, p, h₁) = >>=-eq-ok (insert_entry (refund_entry e o note) db) _ h in
    let (sum, _, h₂) = >>=-eq-ok (balance u o.account_id) _ h₁ in
    let q : db' ≡ u = ground arith in
    subst Inv (sym q) (gain-Inv db u (refund_entry e o note) p k (omega int_laws) v)

pub resolve_order-Inv :
    (e : Env) (db : Db) (id status note : String) {db' : Db} {o : Order}
    → resolve_order e db id status note ≡ ok (db', o)
    → Inv db
    → Inv db'
resolve_order-Inv e db id status note {db'} h v =
    let (s, _, h₁) = resolve_order-in e db id status note h in
    let (o₀, f, r) = resolve_in-effect e db id s note h₁ in
    elim r [
      | inl (_, same, _) ↦ subst Inv (sym same) v
      | inr (_, db₁, c, q, _) ↦
          let k = find_by_id-All (λ o. Known db.identities o.identity) id db.orders f v.ordered in
          subst Inv (sym q) (
            settled-Inv db₁ id (resolved_row e s note) (λ o. refl)
              (credit-Inv e db s o₀ note c k v))
    ]

insert_order-orders :
    (o : Order) (db : Db) {db' : Db} → insert_order o db ≡ ok db' → db'.orders ≡ db.orders ++ o ∷ []
unfolding insert_order
insert_order-orders o db h = ground arith

insert_order-Inv :
    (o : Order) (db : Db) {db' : Db}
    → insert_order o db ≡ ok db'
    → Known db.identities o.identity
    → Inv db
    → Inv db'
insert_order-Inv o db {db'} h k v =
    let (p, q) = insert_order-effect o db h in
    let w = insert_order-orders o db h in
    record {
      keyed = subst Keyed (sym p) v.keyed;
      entered = subst₂ (λ rows xs. All (λ x. Known rows x.identity) xs) (sym p) (sym q) v.entered;
      ordered =
          subst₂ (λ rows os. All (λ x. Known rows x.identity) os) (sym p) (sym w)
            (All-snoc (λ x. Known db.identities x.identity) db.orders o v.ordered k);
      solvent =
          λ id. subst (λ n. pos 0 ≤ℤ n) (sym (ap₂ (λ rs xs. total rs id xs) p q)) (v.solvent id);
    }

known_of : (o : Option String) (id : String) → is_account o id ≡ true → is_known o ≡ true
known_of none id h = cc
known_of (some a) id h = refl

-- what the account can afford is taken from it, and from no other
debit-solvent :
    (balance_of : String → ℤ) (account : String) (n : ℕ)
    → ((id : String) → pos 0 ≤ℤ balance_of id)
    → pos n ≤ℤ balance_of account
    → (id : String) → pos 0 ≤ℤ balance_of id +ℤ (if str_eq account id then neg (pos n) else pos 0)
debit-solvent balance_of account n v a id = elim (Bool-cases (str_eq account id)) [
  | inl y ↦
      let a' = subst (λ i. pos n ≤ℤ balance_of i) ((eq_iff account id).0 y) a in
      rw y (after_debit (balance_of id) n a')
  | inr m ↦ rw m (subst (λ b. pos 0 ≤ℤ b) (sym (+ℤ_zero (balance_of id))) (v id))
]
  where
    after_debit : (b : ℤ) (n : ℕ) → pos n ≤ℤ b → pos 0 ≤ℤ b +ℤ neg (pos n)
    after_debit b n h = omega int_laws

place_order-Inv :
    (e : Env) (db : Db) (account : String) (r : Reservation) {db' : Db} {o : Order}
    → place_order e db account r ≡ ok (db', o)
    → Inv db
    → Inv db'
unfolding place_order
place_order-Inv e db account r {db'} {o} h v =
    let (available, p, h₁) = >>=-eq-ok (balance db account) _ h in
    let (_, g, h₂) =
      >>=-eq-ok (guard (not (ltb_ℤ available (pos r.points))) (conflict "insufficient_points")) _
        h₁ in
    let (i, f, h₃) =
      >>=-eq-ok
        (or_fail (first_identity account db.identities) (failed "sql: no rows in result set")) _
        h₂ in
    let (id, _, h₄) = >>=-eq-ok (or_fail e.new_id (failed "random identifier")) _ h₃ in
    let (db₁, q, h₅) = >>=-eq-ok (insert_order (order_row e id account i r) db) _ h₄ in
    let (db₂, w, h₆) = >>=-eq-ok (insert_entry (debit_entry e id i r) db₁) _ h₅ in
    let (rows, entries) = insert_order-effect (order_row e id account i r) db q in
    let same : db' ≡ db₂ = ground arith in
    let owner =
      Row-account_of account i db.identities v.keyed
        (first_identity-Row account db.identities (or_fail-eq-ok _ _ f)) in
    let k = known_of (account_of i db.identities) account owner in
    let v₁ = insert_order-Inv (order_row e id account i r) db q k v in
    let afford = (place_order-Placed e db account r v.keyed h).afford in
    let amount = (place_order-Placed e db account r v.keyed h).amount in
    let afford' : pos r.points ≤ℤ points_of db account =
      subst (λ n. pos n ≤ℤ points_of db account) amount afford in
    subst Inv (sym same) (
      add_entry-Inv db₁ db₂ (debit_entry e id i r) w (subst (λ rs. Known rs i) (sym rows) k)
        (λ acc.
          subst (λ n. pos 0 ≤ℤ n)
            (sym (
              ap₂ (λ rs xs. total rs acc xs +ℤ part rs acc (debit_entry e id i r)) rows entries
              ∙ ap (λ b. points_of db acc +ℤ (if b then neg (pos r.points) else pos 0))
                  (is_account-only (account_of i db.identities) account acc owner)))
            (debit-solvent (points_of db) account r.points v.solvent afford' acc))
        v₁)

pub reserve_order-Inv :
    (e : Env) (db : Db) (input : OrderInput) {db' : Db} {o : Order}
    → reserve_order e db input ≡ ok (db', o)
    → Inv db
    → Inv db'
unfolding reserve_order reserve_in
reserve_order-Inv e db input {db'} {o} h v =
    let (r, c, h₁) = >>=-eq-ok (check_order input) _ h in
    let touched = record db { accounts = touch e r.account_id db.accounts } in
    let (account, _, h₂) = >>=-eq-ok (canonical touched r.account_id) _ h₁ in
    elim (Option-cases (find_order r.source r.external_ref db.orders)) [
      | inr (x, f) ↦ elim (Bool-cases (same_order x account r)) [
        | inl y ↦ let q : db' ≡ db = ground arith in subst Inv (sym q) v
        | inr n ↦ absurd (ground arith)
      ]
      | inl f ↦
          let g : place_order e touched account r ≡ ok (db', o) = ground arith in
          place_order-Inv e touched account r g (Inv-same db touched refl refl refl v)
    ]

-- ===== src/Points/Settle.antt =====
-- The life of an order of go/points_orders.go: it is settled once, and its points come back exactly
-- when it is refunded.
use erdai_agent.Prelude.{
  true, false, not, ◌||◌, if◌then◌else◌, String, some, ◌≡◌, refl, arith, List, [], ◌∷◌, ℤ, pos,
  ◌+ℤ◌, inl, inr, ◌⊎◌, Bool-cases, str_eq, ap, ◌∙◌, sym, subst, ltb,
}
use Prim.Native.String.{len}
use erdai_agent.Core.{Env, ok, >>=-eq-ok, guard, or_fail, or_fail-eq-ok, invalid}
use erdai_agent.Text.{trim_space}
use erdai_agent.Points.Store.{
  IdentityRow, Order, OrderStatus, reserved, committed, refunded, Db, account_of, is_account,
  balance, insert_entry,
}
use erdai_agent.Points.Orders.{
  credit, refund_entry, resolve_in, resolve_order, resolved_row, update_order, find_by_id,
  same_status, parse_resolution,
}
use erdai_agent.Points.Conserve.{points_of, credit-points, resolve_in-effect, insert_entry-effect}

same_status-eq : (a b : OrderStatus) → same_status a b ≡ true → a ≡ b
same_status-eq a b h = ground arith

parse_resolution-cases :
    (s : String) {status : OrderStatus}
    → parse_resolution s ≡ some status
    → (status ≡ committed) ⊎ (status ≡ refunded)
unfolding parse_resolution
parse_resolution-cases s h = ground arith

pub resolve_order-in :
    (e : Env) (db : Db) (id status note : String) {db' : Db} {o : Order}
    → resolve_order e db id status note ≡ ok (db', o)
    → (s : OrderStatus) × (parse_resolution status ≡ some s)
      × (resolve_in e db id s note ≡ ok (db', o))
unfolding resolve_order
resolve_order-in e db id status note h =
    let (s, p, h₁) = >>=-eq-ok (or_fail (parse_resolution status) (invalid "交易状态及处理凭据为必填项")) _ h in
    let (_, _, h₂) =
      >>=-eq-ok (guard (not (str_eq (trim_space note) "" || ltb 1000 (len note))) _) _ h₁ in
    (s, or_fail-eq-ok _ _ p, h₂)

credit-committed :
    (e : Env) (db : Db) (o : Order) (note : String) {db' : Db}
    → credit e db committed o note ≡ ok db'
    → db' ≡ db
unfolding credit
credit-committed e db o note h = ground arith

-- the points that come back to an account when an order is refunded
abbrev pub refund_part : List IdentityRow → String → Order → ℤ
refund_part rows account o =
    if is_account (account_of o.identity rows) account then pos o.points else pos 0

-- A resolution that succeeds either finds the order in that status and changes nothing, or settles a
-- reserved order: committed, with every balance as it was, or refunded, with the order's points back
-- on the account that owns its identity now, also after a merge, and every other balance as it was.
pub resolve_settles :
    (e : Env) (db : Db) (id status note : String) {db' : Db} {o : Order}
    → resolve_order e db id status note ≡ ok (db', o)
    → (o₀ : Order) × (find_by_id id db.orders ≡ some o₀)
      × (((db' ≡ db) × (o ≡ o₀) × (parse_resolution status ≡ some o₀.status))
          ⊎ ((o₀.status ≡ reserved)
              × (o.status ≡ committed)
              × ((account : String) → points_of db' account ≡ points_of db account))
          ⊎ ((o₀.status ≡ reserved)
              × (o.status ≡ refunded)
              × ((account : String)
                  → points_of db' account
                    ≡ points_of db account +ℤ refund_part db.identities account o₀)))
resolve_settles e db id status note {db'} {o} h =
    let (s, p, h₁) = resolve_order-in e db id status note h in
    let (o₀, f, r) = resolve_in-effect e db id s note h₁ in
    (
      o₀,
      f,
      elim r [
        | inl (y, same, q) ↦ inl (same, q, p ∙ ap some (sym (same_status-eq o₀.status s y)))
        | inr (y, db₁, c, q, w) ↦
            let z = same_status-eq o₀.status reserved y in
            let w' : o.status ≡ s = ap (λ x. x.status) w in
            elim (parse_resolution-cases status p) [
              | inl k ↦
                  let c' : credit e db committed o₀ note ≡ ok db₁ =
                    subst (λ u. credit e db u o₀ note ≡ ok db₁) k c in
                  inr (
                    inl (
                      z,
                      w' ∙ k,
                      λ account.
                          ap (λ d. points_of d account) q
                          ∙ ap (λ d. points_of d account) (credit-committed e db o₀ note c'),
                    ))
              | inr k ↦
                  let c' : credit e db refunded o₀ note ≡ ok db₁ =
                    subst (λ u. credit e db u o₀ note ≡ ok db₁) k c in
                  inr (
                    inr (
                      z,
                      w' ∙ k,
                      λ account.
                          ap (λ d. points_of d account) q ∙ credit-points e db o₀ note account c',
                    ))
            ]
      ],
    )

find_by_id-update :
    (id : String) (f : Order → Order)
    → ((o : Order) → (f o).id ≡ o.id)
    → (os : List Order) {o : Order} → find_by_id id os ≡ some o
    → find_by_id id (update_order id f os) ≡ some (f o)
unfolding find_by_id update_order
find_by_id-update id f k [] h = cc
find_by_id-update id f k (p ∷ os) {o} h = elim (Bool-cases (str_eq p.id id)) [
  | inl y ↦
      let y' : str_eq (f p).id id ≡ true = ap (λ i. str_eq i id) (k p) ∙ y in
      let e : p ≡ o = ground arith in rw (y, y') (ap (λ x. some (f x)) e)
  | inr n ↦
      let h' : find_by_id id os ≡ some o = ground arith in
      rw (n, n) (find_by_id-update id f k os h')
]

pub credit-orders :
    (e : Env) (db : Db) (s : OrderStatus) (o : Order) (note : String) {db' : Db}
    → credit e db s o note ≡ ok db'
    → db'.orders ≡ db.orders
unfolding credit
credit-orders e db reserved o note h = ground arith
credit-orders e db committed o note h = ground arith
credit-orders e db refunded o note {db'} h =
    let (u, p, h₁) = >>=-eq-ok (insert_entry (refund_entry e o note) db) _ h in
    let (v, _, h₂) = >>=-eq-ok (balance u o.account_id) _ h₁ in
    let same : db' ≡ u = ground arith in
    ap (λ d. d.orders) same ∙ (insert_entry-effect (refund_entry e o note) db p).3

some-eq : {a b : Order} → some a ≡ some b → a ≡ b
some-eq h = cc

settled_status :
    (s : OrderStatus) (text : String)
    → parse_resolution text ≡ some s
    → (o : Order) → s ≡ o.status
    → same_status o.status reserved ≡ false
settled_status s text p o q = elim (parse_resolution-cases text p) [
  | inl k ↦ ground arith
  | inr k ↦ ground arith
]

-- A settled order is final: after a resolution that succeeded, a later one that succeeds, with
-- whatever status and note, changes nothing; so no order is refunded twice, or refunded after it was
-- committed.
pub resolve_final :
    (e e' : Env) (db : Db) (id status status' note note' : String) {db' db'' : Db} {o o' : Order}
    → resolve_order e db id status note ≡ ok (db', o)
    → resolve_order e' db' id status' note' ≡ ok (db'', o')
    → db'' ≡ db'
resolve_final e e' db id status status' note note' {db'} {db''} {o} {o'} h h' =
    let (s, p, h₁) = resolve_order-in e db id status note h in
    let (o₀, f, r) = resolve_in-effect e db id s note h₁ in
    let (s', p', h₁') = resolve_order-in e' db' id status' note' h' in
    let (o₁, f', r') = resolve_in-effect e' db' id s' note' h₁' in
    let not_reserved : same_status o₁.status reserved ≡ false = elim r [
      | inl (y, same, q) ↦
          let i : o₀ ≡ o₁ = some-eq (sym f ∙ ap (λ d. find_by_id id d.orders) (sym same) ∙ f') in
          settled_status s status p o₁ (sym (same_status-eq o₀.status s y) ∙ ap (λ x. x.status) i)
      | inr (y, db₁, c, q, w) ↦
          let g =
            find_by_id-update id (resolved_row e s note) (λ x. refl) db₁.orders
              (subst (λ os. find_by_id id os ≡ some o₀) (sym (credit-orders e db s o₀ note c)) f) in
          let i : resolved_row e s note o₀ ≡ o₁ =
            some-eq (sym g ∙ ap (λ d. find_by_id id d.orders) (sym q) ∙ f') in
          settled_status s status p o₁ (ap (λ x. x.status) i)
    ] in
    elim r' [ inl (_, same, _) ↦ same | inr (y, _, _, _, _) ↦ cc ]

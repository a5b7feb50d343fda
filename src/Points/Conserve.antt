-- ===== src/Points/Conserve.antt =====
-- What the operations of go/points_accounts.go and go/points_orders.go do to the balances.
use erdai_agent.Prelude.{
  true, false, not, String, some, ◌≡◌, arith, [], ◌∷◌, ◌++◌, ℤ, pos, ◌+ℤ◌, inl, inr, ◌⊎◌,
  Bool-cases, str_eq, eq_iff, ap, ap₂, ◌∙◌, sym,
}
use erdai_agent.Core.{Env, ok, >>=-eq-ok, guard, or_fail, or_fail-eq-ok, not_found}
use erdai_agent.Points.Store.{
  Entry, Order, OrderStatus, reserved, refunded, Db, total, balance, canonical, insert_entry,
  entry_clash,
}
use erdai_agent.Points.Accounts.{touch}
use erdai_agent.Points.Merge.{
  move_identities, move_accounts, move_orders, merge_rows, merge_into, merge_accounts, merge_input,
}
use erdai_agent.Points.Orders.{
  credit, refund_entry, resolve_in, resolved_row, update_order, find_by_id, same_status,
}
use erdai_agent.Points.Totals.{
  part, total-snoc, total-move_target, total-move_source, total-move_other,
}

abbrev pub points_of : Db → String → ℤ
points_of db id = total db.identities id db.entries

-- the accounts at the time of the merge, when the time of the target is set
abbrev pub touched : Env → String → Db → Db
touched e target db = record db { accounts = touch e target db.accounts }

pub record Merged (e : Env) (db db' : Db) (source target to : String) : Type 0 where
  pub from_self : canonical (touched e target db) source ≡ ok source
  pub to_canonical : canonical (touched e target db) target ≡ ok to
  pub apart : str_eq source to ≡ false
  pub identities : db'.identities ≡ move_identities source to db.identities
  pub entries : db'.entries ≡ db.entries
  pub accounts : db'.accounts ≡ move_accounts e source to (touch e target db.accounts)
  pub orders : db'.orders ≡ move_orders source to db.orders

merge_into-effect :
    (e : Env) (db : Db) (source to evidence : String) {db' : Db} {to' : String}
    → merge_into e db source to evidence ≡ ok (db', to')
    → (to' ≡ to)
      × (db'.identities ≡ move_identities source to db.identities)
      × (db'.entries ≡ db.entries)
      × (db'.accounts ≡ move_accounts e source to db.accounts)
      × (db'.orders ≡ move_orders source to db.orders)
unfolding merge_into merge_rows
merge_into-effect e db source to evidence h = ground arith

pub merge_accounts-effect :
    (e : Env) (db : Db) (source target evidence : String) {db' : Db} {to : String}
    → merge_accounts e db source target evidence ≡ ok (db', to)
    → ((canonical (touched e target db) source ≡ ok to)
        × (canonical (touched e target db) target ≡ ok to)
        × (db' ≡ db))
      ⊎ Merged e db db' source target to
unfolding merge_accounts
merge_accounts-effect e db source target evidence {db'} {to} h =
    let at = touched e target db in
    let (_, _, h₁) = >>=-eq-ok (guard (not (merge_input source target evidence)) _) _ h in
    let (from, p, h₂) = >>=-eq-ok (canonical at source) _ h₁ in
    let (to', q, h₃) = >>=-eq-ok (canonical at target) _ h₂ in
    elim (Bool-cases (str_eq from to')) [
      | inl y ↦
          let same : from ≡ to' = (eq_iff from to').0 y in
          let left : Db × String = (db, to') in
          let g : ok left ≡ ok (db', to) = ground arith in
          let r : to' ≡ to = ground arith in inl (p ∙ ap ok (same ∙ r), q ∙ ap ok r, ground arith)
      | inr n ↦ elim (Bool-cases (str_eq from source)) [
        | inr m ↦ absurd (ground arith)
        | inl z ↦
            let i : from ≡ source = (eq_iff from source).0 z in
            let g : merge_into e at source to' evidence ≡ ok (db', to) = ground arith in
            let (a, b, c, d, f) = merge_into-effect e at source to' evidence g in
            inr (record {
              from_self = p ∙ ap ok i;
              to_canonical = q ∙ ap ok (sym a);
              apart = ap₂ str_eq (sym i) a ∙ n;
              identities = b ∙ ap (λ t. move_identities source t db.identities) (sym a);
              entries = c;
              accounts = d ∙ ap (λ t. move_accounts e source t at.accounts) (sym a);
              orders = f ∙ ap (λ t. move_orders source t db.orders) (sym a);
            })
      ]
    ]

-- A merge of two accounts moves no points: the target has the sum of both balances afterwards, the
-- source has none, every other account has what it had, and the ledger is the same. That is so where
-- the source stands for itself and the target for another account; where both names already stand for
-- one account, nothing changes; and a merge that succeeds is one of the two.
pub merge_conserves :
    (e : Env) (db : Db) (source target evidence : String) {db' : Db} {to : String}
    → merge_accounts e db source target evidence ≡ ok (db', to)
    → ((canonical (touched e target db) source ≡ ok to)
        × (canonical (touched e target db) target ≡ ok to)
        × (db' ≡ db))
      ⊎ ((canonical (touched e target db) source ≡ ok source)
          × (canonical (touched e target db) target ≡ ok to)
          × (str_eq source to ≡ false)
          × (points_of db' to ≡ points_of db to +ℤ points_of db source)
          × (points_of db' source ≡ pos 0)
          × ((other : String)
              → str_eq source other ≡ false
              → str_eq to other ≡ false
              → points_of db' other ≡ points_of db other)
          × (db'.entries ≡ db.entries))
merge_conserves e db source target evidence {db'} {to} h =
    elim (merge_accounts-effect e db source target evidence h) [
      | inl same ↦ inl same
      | inr m ↦
          let at = λ (id : String). ap₂ (λ rows xs. total rows id xs) m.identities m.entries in
          inr (
            m.from_self,
            m.to_canonical,
            m.apart,
            at to ∙ total-move_target source to db.identities db.entries m.apart,
            at source ∙ total-move_source source to db.identities db.entries m.apart,
            λ other p q. at other ∙ total-move_other source to other db.identities db.entries p q,
            m.entries,
          )
    ]

pub insert_entry-effect :
    (x : Entry) (db : Db) {db' : Db}
    → insert_entry x db ≡ ok db'
    → (db'.identities ≡ db.identities)
      × (db'.entries ≡ db.entries ++ x ∷ [])
      × (entry_clash x db.entries ≡ false)
      × (db'.orders ≡ db.orders)
      × (db'.accounts ≡ db.accounts)
unfolding insert_entry
insert_entry-effect x db h = ground arith

-- The ledger and its balances after one entry more.
pub insert_entry-points :
    (x : Entry) (db : Db) {db' : Db} (id : String)
    → insert_entry x db ≡ ok db'
    → points_of db' id ≡ points_of db id +ℤ part db.identities id x
insert_entry-points x db id h =
    let (r, n, _, _, _) = insert_entry-effect x db h in
    ap₂ (λ rows xs. total rows id xs) r n ∙ total-snoc db.identities id db.entries x

pub credit-points :
    (e : Env) (db : Db) (o : Order) (note : String) {db' : Db} (id : String)
    → credit e db refunded o note ≡ ok db'
    → points_of db' id ≡ points_of db id +ℤ part db.identities id (refund_entry e o note)
unfolding credit
credit-points e db o note {db'} id h =
    let (u, p, h₁) = >>=-eq-ok (insert_entry (refund_entry e o note) db) _ h in
    let (v, _, h₂) = >>=-eq-ok (balance u o.account_id) _ h₁ in
    let same : db' ≡ u = ground arith in
    ap (λ d. points_of d id) same ∙ insert_entry-points (refund_entry e o note) db id p

pub resolve_in-effect :
    (e : Env) (db : Db) (id : String) (status : OrderStatus) (note : String) {db' : Db} {o : Order}
    → resolve_in e db id status note ≡ ok (db', o)
    → (o₀ : Order) × (find_by_id id db.orders ≡ some o₀)
      × (((same_status o₀.status status ≡ true) × (db' ≡ db) × (o ≡ o₀))
          ⊎ ((same_status o₀.status reserved ≡ true)
              × (db₁ : Db) × (credit e db status o₀ note ≡ ok db₁)
              × (db'
                  ≡ record db₁ { orders = update_order id (resolved_row e status note) db₁.orders })
              × (o ≡ resolved_row e status note o₀)))
unfolding resolve_in
resolve_in-effect e db id status note {db'} {o} h =
    let (o₀, p, h₁) = >>=-eq-ok (or_fail (find_by_id id db.orders) (not_found "积分订单不存在")) _ h in
    (
      o₀,
      or_fail-eq-ok _ _ p,
      elim (Bool-cases (same_status o₀.status status)) [
        | inl y ↦ inl (y, ground arith, ground arith)
        | inr n ↦ elim (Bool-cases (same_status o₀.status reserved)) [
          | inr m ↦ absurd (ground arith)
          | inl z ↦
              let (db₁, q, h₂) =
                >>=-eq-ok (credit e db status o₀ note) _ (let h₂ = rw (n, z) at h₁ in h₂) in
              inr (z, db₁, q, ground arith, ground arith)
        ]
      ],
    )

-- ===== src/Points/Entries.antt =====
-- Check-ins, links and merges of go/affiliate_commands.go and go/points_accounts.go: each keeps the
-- invariant of the ledger.
use erdai_agent.Prelude.{
  Bool, true, false, not, String, Option, none, ◌≡◌, refl, arith, List, [], ◌∷◌, ◌++◌, ℤ, pos, ◌≤ℤ◌,
  int_laws, inl, inr, Bool-cases, Option-cases, str_eq, ap, ap₂, ◌∙◌, sym, subst, subst₂, ltb_ℤ,
  All,
}
use erdai_agent.Core.{Env, ok, >>=-eq-ok, or_fail, failed}
use erdai_agent.Points.Store.{
  Identity, IdentityRow, Entry, Db, account_of, is_account, total, balance, canonical, insert_entry,
}
use erdai_agent.Points.Accounts.{
  scope, add_account, add_identity, ensure_identity, link_in, link_identity, touch, link_valid,
}
use erdai_agent.Points.Merge.{merge_accounts, put_checkin, has_checkin}
use erdai_agent.Points.CheckIn.{daily_check_in, award, award_entry, check_in_points}
use erdai_agent.Points.Totals.{part}
use erdai_agent.Points.Conserve.{points_of, merge_accounts-effect}
use erdai_agent.Points.Reserve.{Keyed, same_identity_refl}
use erdai_agent.Points.Solvent.{
  Inv, Known, add_row-Inv, add_entry-Inv, merge-Inv, account_of-last, is_known, sum_nonneg,
}

pub add_account-same :
    (e : Env) (id : String) (known : Option String) (db : Db)
    → ((add_account e id known db).identities ≡ db.identities)
      × ((add_account e id known db).entries ≡ db.entries)
      × ((add_account e id known db).orders ≡ db.orders)
unfolding add_account
add_account-same e id known db = ground arith

add_identity-none :
    (i : Identity) (id : String) (known : Option String) (db : Db)
    → known ≡ none
    → ((add_identity i id known db).identities
        ≡ db.identities ++ record { identity = i; account_id = id } ∷ [])
      × ((add_identity i id known db).entries ≡ db.entries)
      × ((add_identity i id known db).orders ≡ db.orders)
unfolding add_identity
add_identity-none i id known db h = ground arith

-- The tables that the invariant reads decide it.
pub Inv-same :
    (db db' : Db)
    → db'.identities ≡ db.identities
    → db'.entries ≡ db.entries
    → db'.orders ≡ db.orders
    → Inv db
    → Inv db'
Inv-same db db' p q w v = record {
  keyed = subst Keyed (sym p) v.keyed;
  entered = subst₂ (λ rows xs. All (λ x. Known rows x.identity) xs) (sym p) (sym q) v.entered;
  ordered = subst₂ (λ rows os. All (λ o. Known rows o.identity) os) (sym p) (sym w) v.ordered;
  solvent = λ id. subst (λ n. pos 0 ≤ℤ n) (sym (ap₂ (λ rs xs. total rs id xs) p q)) (v.solvent id);
}

pub ensure-Inv :
    (initial : Identity → String) (e : Env) (i : Identity) (db : Db)
    → Inv db
    → Inv (ensure_identity initial e i db).0 × Known (ensure_identity initial e i db).0.identities i
unfolding ensure_identity
ensure-Inv initial e i db v = elim (Option-cases (account_of i db.identities)) [
  | inr (a, p) ↦
      let q : (ensure_identity initial e i db).0 ≡ db = rw (p, ensure_identity) refl in
      (subst Inv (sym q) v, subst (λ d. Known d.identities i) (sym q) (ap is_known p))
  | inl n ↦
      let db' = (ensure_identity initial e i db).0 in
      let (r, x, o) = add_account-same e (initial i) (account_of i db.identities) db in
      let (r', x', o') =
        add_identity-none i (initial i) (account_of i db.identities)
          (add_account e (initial i) (account_of i db.identities) db) n in
      let row : IdentityRow = record { identity = i; account_id = initial i } in
      let q : db'.identities ≡ db.identities ++ row ∷ [] = r' ∙ ap (λ rs. rs ++ row ∷ []) r in
      (
        add_row-Inv db db' i (initial i) n q (x' ∙ x) (o' ∙ o) v,
        subst (λ rows. Known rows i) (sym q)
            (ap is_known (account_of-last i db.identities (initial i) n (same_identity_refl i))),
      )
]

part-nonneg :
    (rows : List IdentityRow) (id : String) (x : Entry)
    → pos 0 ≤ℤ x.points
    → pos 0 ≤ℤ part rows id x
part-nonneg rows id x h = elim (Bool-cases (is_account (account_of x.identity rows) id)) [
  | inl y ↦ rw y h
  | inr n ↦ rw n (omega int_laws)
]

-- an entry that gives points
pub gain-Inv :
    (db db' : Db) (x : Entry)
    → insert_entry x db ≡ ok db'
    → Known db.identities x.identity
    → pos 0 ≤ℤ x.points
    → Inv db
    → Inv db'
gain-Inv db db' x h k n v =
    add_entry-Inv db db' x h k
      (λ id.
        sum_nonneg (points_of db id) (part db.identities id x) (v.solvent id)
          (part-nonneg db.identities id x n))
      v

at_least_one : (p : ℤ) → ltb_ℤ p (pos 1) ≡ false → pos 0 ≤ℤ p
at_least_one p h = ground arith

check_in_points-nonneg : (p : ℤ) → pos 0 ≤ℤ check_in_points p
unfolding check_in_points
check_in_points-nonneg p = elim (Bool-cases (ltb_ℤ p (pos 1))) [
  | inl y ↦ rw y (omega int_laws)
  | inr n ↦ rw n (at_least_one p n)
]

award-Inv :
    (e : Env) (db : Db) (id : String) (i : Identity) (p : ℤ) (date : String) (b : Bool) {db' : Db}
    → award e db id i (check_in_points p) date b ≡ ok db'
    → Known db.identities i
    → Inv db
    → Inv db'
unfolding award
award-Inv e db id i p date true {db'} h k v =
    gain-Inv db db' (award_entry e id i (check_in_points p) date) h k (check_in_points-nonneg p) v
award-Inv e db id i p date false {db'} h k v =
    let q : db' ≡ db = ground arith in subst Inv (sym q) v

pub daily_check_in-Inv :
    (initial : Identity → String) (e : Env) (db : Db) (identity : Identity) (p : ℤ) (date : String)
    {db' : Db} {r : Bool × ℤ}
    → daily_check_in initial e db identity p date ≡ ok (db', r.0, r.1)
    → Inv db
    → Inv db'
unfolding daily_check_in
daily_check_in-Inv initial e db identity p date {db'} {r} h v =
    let (id, _, h₁) = >>=-eq-ok (or_fail e.new_id (failed "random identifier")) _ h in
    let i = scope e identity in
    let db₁ = (ensure_identity initial e i db).0 in
    let account = (ensure_identity initial e i db).1 in
    let (v₁, k) = ensure-Inv initial e i db v in
    let db₂ = record db₁ { checkins = put_checkin account date db₁.checkins } in
    let b = not (has_checkin account date db₁.checkins) in
    let (db₃, a, h₂) = >>=-eq-ok (award e db₂ id i (check_in_points p) date b) _ h₁ in
    let (sum, _, h₃) = >>=-eq-ok (balance db₃ account) _ h₂ in
    let q : db' ≡ db₃ = ground arith in
    subst Inv (sym q) (award-Inv e db₂ id i p date b a k (Inv-same db₁ db₂ refl refl refl v₁))

link_in-Inv :
    (e : Env) (db : Db) (account : String) (i : Identity) (evidence : String) {db' : Db}
    {to : String}
    → link_in e db account i evidence ≡ ok (db', to)
    → Inv db
    → Inv db'
unfolding link_in
link_in-Inv e db account i evidence {db'} h v =
    let touched = record db { accounts = touch e account db.accounts } in
    let (a, _, h₁) = >>=-eq-ok (canonical touched account) _ h in
    elim (Option-cases (account_of i db.identities)) [
      | inr (x, p) ↦ elim (Bool-cases (str_eq x a)) [
        | inl y ↦ let q : db' ≡ db = ground arith in subst Inv (sym q) v
        | inr n ↦ absurd (ground arith)
      ]
      | inl n ↦
          let q : db'.identities ≡ db.identities ++ record { identity = i; account_id = a } ∷ [] =
            ground arith in
          add_row-Inv db db' i a n q (ground arith) (ground arith) v
    ]

pub link_identity-Inv :
    (e : Env) (db : Db) (account : String) (i : Identity) (evidence : String) {db' : Db}
    {to : String}
    → link_identity e db account i evidence ≡ ok (db', to)
    → Inv db
    → Inv db'
unfolding link_identity
link_identity-Inv e db account i evidence h v =
    elim (Bool-cases (link_valid e (scope e i) evidence)) [
      | inl y ↦ link_in-Inv e db account (scope e i) evidence (let h' = rw y at h in h') v
      | inr n ↦ absurd (ground arith)
    ]

pub merge_accounts-Inv :
    (e : Env) (db : Db) (source target evidence : String) {db' : Db} {to : String}
    → merge_accounts e db source target evidence ≡ ok (db', to)
    → Inv db
    → Inv db'
merge_accounts-Inv e db source target evidence {db'} {to} h v =
    elim (merge_accounts-effect e db source target evidence h) [
      | inl (_, _, same) ↦ subst Inv (sym same) v
      | inr m ↦ merge-Inv e db db' source target to m v
    ]

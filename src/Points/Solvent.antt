-- ===== src/Points/Solvent.antt =====
-- The histories of the points tables of go/points_accounts.go: no balance is ever negative.
use erdai_agent.Prelude.{
  Bool, true, false, String, Option, none, some, ◌≡◌, refl, arith, List, [], ◌∷◌, ◌++◌, ℤ, pos,
  ◌+ℤ◌, ◌≤ℤ◌, int_laws, inl, inr, Bool-cases, str_eq, eq_iff, ap, ap₂, ◌∙◌, sym, subst, All,
}
use erdai_agent.Core.{Env, ok}
use erdai_agent.Points.Store.{
  Identity, IdentityRow, Entry, Order, Db, account_of, is_account, total, same_identity,
  insert_entry,
}
use erdai_agent.Points.Merge.{move_identities, move_orders}
use erdai_agent.Points.Totals.{
  part, total-move_target, total-move_source, total-move_other, account_of-move, moved,
}
use erdai_agent.Points.Conserve.{points_of, insert_entry-points, insert_entry-effect, Merged}
use erdai_agent.Points.Reserve.{Keyed}

abbrev pub is_known : Option String → Bool
is_known none = false
is_known (some a) = true

abbrev pub Known : List IdentityRow → Identity → Type 0
Known rows i = is_known (account_of i rows) ≡ true

-- the invariant of the histories
pub record Inv (db : Db) : Type 0 where
  pub keyed : Keyed db.identities
  pub entered : All (λ x. Known db.identities x.identity) db.entries
  pub ordered : All (λ o. Known db.identities o.identity) db.orders
  pub solvent : (id : String) → pos 0 ≤ℤ points_of db id

account_of-snoc :
    (i : Identity) (rows : List IdentityRow) (r : IdentityRow)
    → Known rows i
    → account_of i (rows ++ r ∷ []) ≡ account_of i rows
unfolding account_of
account_of-snoc i [] r h = cc
account_of-snoc i (q ∷ rs) r h = ground (arith, account_of-snoc i rs r)

pub account_of-last :
    (i : Identity) (rows : List IdentityRow) (a : String)
    → account_of i rows ≡ none
    → same_identity i i ≡ true
    → account_of i (rows ++ record { identity = i; account_id = a } ∷ []) ≡ some a
unfolding account_of
account_of-last i [] a h s = rw s
account_of-last i (q ∷ rs) a h s = ground (arith, account_of-last i rs a)

pub All-snoc {ℓ κ} :
    {A : Type ℓ} (P : A → Type κ) (xs : List A) (x : A) → All P xs → P x → All P (xs ++ x ∷ [])
All-snoc P [] x h p = (p, tt)
All-snoc P (y ∷ xs) x h p = (h.0, All-snoc P xs x h.1 p)

All-mono {ℓ κ ι} :
    {A : Type ℓ} (P : A → Type κ) (Q : A → Type ι)
    → ((a : A) → P a → Q a)
    → (xs : List A) → All P xs
    → All Q xs
All-mono P Q f [] h = tt
All-mono P Q f (x ∷ xs) h = (f x h.0, All-mono P Q f xs h.1)

apart-All :
    (i : Identity) (rows : List IdentityRow)
    → account_of i rows ≡ none
    → All (λ q. same_identity q.identity i ≡ false) rows
unfolding account_of
apart-All i [] h = tt
apart-All i (q ∷ rs) h = (ground arith, apart-All i rs (ground arith))

Keyed-snoc :
    (rows : List IdentityRow) (r : IdentityRow)
    → Keyed rows
    → All (λ q. same_identity q.identity r.identity ≡ false) rows
    → Keyed (rows ++ r ∷ [])
Keyed-snoc [] r k h = (tt, tt)
Keyed-snoc (q ∷ rs) r k h = (
  All-snoc (λ p. same_identity q.identity p.identity ≡ false) rs r k.0 h.0,
  Keyed-snoc rs r k.1 h.1,
)

total-snoc_row :
    (rows : List IdentityRow) (r : IdentityRow) (id : String) (xs : List Entry)
    → All (λ x. Known rows x.identity) xs
    → total (rows ++ r ∷ []) id xs ≡ total rows id xs
unfolding total
total-snoc_row rows r id [] h = refl
total-snoc_row rows r id (x ∷ xs) h =
    let b = ap (λ o. is_account o id) (account_of-snoc x.identity rows r h.0) in
    rw (b, total-snoc_row rows r id xs h.1)

-- A new row for an identity that has none keeps the invariant.
pub add_row-Inv :
    (db db' : Db) (i : Identity) (a : String)
    → account_of i db.identities ≡ none
    → db'.identities ≡ db.identities ++ record { identity = i; account_id = a } ∷ []
    → db'.entries ≡ db.entries
    → db'.orders ≡ db.orders
    → Inv db
    → Inv db'
add_row-Inv db db' i a n p q w v =
    let r : IdentityRow = record { identity = i; account_id = a } in
    let known = λ (j : Identity) (h : Known db.identities j).
      subst (λ rows. Known rows j) (sym p)
        (ap is_known (account_of-snoc j db.identities r h) ∙ h) in
    record {
      keyed =
          subst Keyed (sym p) (Keyed-snoc db.identities r v.keyed (apart-All i db.identities n));
      entered = subst (All (λ x. Known db'.identities x.identity)) (sym q) (
          All-mono (λ x. Known db.identities x.identity) (λ x. Known db'.identities x.identity)
            (λ x. known x.identity) db.entries v.entered);
      ordered = subst (All (λ x. Known db'.identities x.identity)) (sym w) (
          All-mono (λ x. Known db.identities x.identity) (λ x. Known db'.identities x.identity)
            (λ x. known x.identity) db.orders v.ordered);
      solvent = λ id.
          subst (λ n. pos 0 ≤ℤ n)
            (sym (
              ap₂ (λ rs xs. total rs id xs) p q
              ∙ total-snoc_row db.identities r id db.entries v.entered))
            (v.solvent id);
    }

-- An entry of a known identity keeps the invariant where each account can take its part.
pub add_entry-Inv :
    (db db' : Db) (x : Entry)
    → insert_entry x db ≡ ok db'
    → Known db.identities x.identity
    → ((id : String) → pos 0 ≤ℤ points_of db id +ℤ part db.identities id x)
    → Inv db
    → Inv db'
add_entry-Inv db db' x h k s v =
    let (p, q, _, w, _) = insert_entry-effect x db h in
    record {
      keyed = subst Keyed (sym p) v.keyed;
      entered =
          subst (λ rows. All (λ y. Known rows y.identity) db'.entries) (sym p)
            (subst (All (λ y. Known db.identities y.identity)) (sym q)
              (All-snoc (λ y. Known db.identities y.identity) db.entries x v.entered k));
      ordered =
          subst (λ rows. All (λ y. Known rows y.identity) db'.orders) (sym p)
            (subst (All (λ y. Known db.identities y.identity)) (sym w) v.ordered);
      solvent = λ id. subst (λ n. pos 0 ≤ℤ n) (sym (insert_entry-points x db id h)) (s id);
    }

Known-move :
    (source target : String) (rows : List IdentityRow) (i : Identity)
    → Known rows i
    → Known (move_identities source target rows) i
Known-move source target rows i h =
    ap is_known (account_of-move source target i rows) ∙ known_moved (account_of i rows) h
  where
    known_moved : (o : Option String) → is_known o ≡ true → is_known (moved source target o) ≡ true
    known_moved none e = cc
    known_moved (some a) e = refl

rows-move :
    (P : Identity → Type 0) (source target : String) (rows : List IdentityRow)
    → All (λ q. P q.identity) rows
    → All (λ q. P q.identity) (move_identities source target rows)
unfolding move_identities
rows-move P source target [] h = tt
rows-move P source target (r ∷ rs) h = (
  elim (Bool-cases (str_eq r.account_id source)) [ inl y ↦ rw y h.0 | inr n ↦ rw n h.0 ],
  rows-move P source target rs h.1,
)

Keyed-move :
    (source target : String) (rows : List IdentityRow)
    → Keyed rows
    → Keyed (move_identities source target rows)
unfolding move_identities
Keyed-move source target [] k = tt
Keyed-move source target (r ∷ rs) k = (
  elim (Bool-cases (str_eq r.account_id source)) [
    | inl y ↦ rw y (rows-move (λ i. same_identity r.identity i ≡ false) source target rs k.0)
    | inr n ↦ rw n (rows-move (λ i. same_identity r.identity i ≡ false) source target rs k.0)
  ],
  Keyed-move source target rs k.1,
)

orders-move :
    (P : Identity → Type 0) (source target : String) (os : List Order)
    → All (λ o. P o.identity) os
    → All (λ o. P o.identity) (move_orders source target os)
unfolding move_orders
orders-move P source target [] h = tt
orders-move P source target (o ∷ os) h = (
  elim (Bool-cases (str_eq o.account_id source)) [ inl y ↦ rw y h.0 | inr n ↦ rw n h.0 ],
  orders-move P source target os h.1,
)

pub sum_nonneg : (a b : ℤ) → pos 0 ≤ℤ a → pos 0 ≤ℤ b → pos 0 ≤ℤ a +ℤ b
sum_nonneg a b h k = omega int_laws

move-solvent :
    (source target : String) (rows : List IdentityRow) (xs : List Entry)
    → str_eq source target ≡ false
    → ((id : String) → pos 0 ≤ℤ total rows id xs)
    → (id : String) → pos 0 ≤ℤ total (move_identities source target rows) id xs
move-solvent source target rows xs n h id = elim (Bool-cases (str_eq target id)) [
  | inl y ↦
      let e = (eq_iff target id).0 y in
      subst (λ a. pos 0 ≤ℤ total (move_identities source target rows) a xs) e
        (subst (λ m. pos 0 ≤ℤ m) (sym (total-move_target source target rows xs n))
          (sum_nonneg (total rows target xs) (total rows source xs) (h target) (h source)))
  | inr m ↦ elim (Bool-cases (str_eq source id)) [
    | inl y ↦
        let e = (eq_iff source id).0 y in
        subst (λ a. pos 0 ≤ℤ total (move_identities source target rows) a xs) e
          (subst (λ k. pos 0 ≤ℤ k) (sym (total-move_source source target rows xs n)) (omega arith))
    | inr k ↦ subst (λ p. pos 0 ≤ℤ p) (sym (total-move_other source target id rows xs k m)) (h id)
  ]
]

-- A merge keeps the invariant.
pub merge-Inv :
    (e : Env) (db db' : Db) (source target to : String)
    → Merged e db db' source target to
    → Inv db
    → Inv db'
merge-Inv e db db' source target to m v =
    let move = λ (j : Identity) (h : Known db.identities j).
      subst (λ rows. Known rows j) (sym m.identities) (Known-move source to db.identities j h) in
    record {
      keyed = subst Keyed (sym m.identities) (Keyed-move source to db.identities v.keyed);
      entered = subst (All (λ x. Known db'.identities x.identity)) (sym m.entries) (
          All-mono (λ x. Known db.identities x.identity) (λ x. Known db'.identities x.identity)
            (λ x. move x.identity) db.entries v.entered);
      ordered = subst (All (λ o. Known db'.identities o.identity)) (sym m.orders) (
          orders-move (Known db'.identities) source to db.orders (
            All-mono (λ o. Known db.identities o.identity) (λ o. Known db'.identities o.identity)
              (λ o. move o.identity) db.orders v.ordered));
      solvent = λ id.
          subst (λ n. pos 0 ≤ℤ n) (sym (ap₂ (λ rs xs. total rs id xs) m.identities m.entries))
            (move-solvent source to db.identities db.entries m.apart v.solvent id);
    }

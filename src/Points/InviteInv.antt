-- ===== src/Points/InviteInv.antt =====
-- `creditInvitePoints` of go/affiliate_commands.go keeps the invariant of the ledger.
use erdai_agent.Prelude.{
  ℕ, ◌/◌, Bool, true, ◌&&◌, ltb, String, Option, none, some, List, ℤ, pos, negsuc, ◌+ℤ◌, neg, ◌≤ℤ◌,
  ltb_ℤ, int_laws, ◌≡◌, refl, sym, subst, ◌∙◌, arith, Bool-cases, inl, inr, if_true, if_false,
}
use erdai_agent.Core.{Env, Error, Result, ok, err}
use erdai_agent.Points.Store.{Identity, OwnerRow, Db}
use erdai_agent.Points.Accounts.{scope, ensure_identity}
use erdai_agent.Points.Entries.{ensure-Inv, gain-Inv}
use erdai_agent.Points.Solvent.{Inv, Known}
use erdai_agent.Points.Invite.{
  points_per_invitee, awarded_count, scale, invite_entry, insert_award, owner_exists,
  owner_verified, settled, with_id, credit_count, credit_code, credit_invite_points,
  normalize_affiliate_code,
}
use erdai_agent.Points.Decimal.{max_integer}

scale-nonneg : (a : ℤ) (k : ℕ) → pos 0 ≤ℤ a → pos 0 ≤ℤ scale a k
unfolding scale
scale-nonneg (pos n) k h = omega arith
scale-nonneg (negsuc n) k h = absurd (omega arith)

difference-nonneg : (a b : ℤ) → ltb_ℤ a b ≡ true → pos 0 ≤ℤ b +ℤ neg a
difference-nonneg a b h = let le = lt_le a b h in omega int_laws
  where
    lt_le : (c d : ℤ) → ltb_ℤ c d ≡ true → c ≤ℤ d
    lt_le c d k = ground arith

insert_award-Inv :
    (e : Env) (db : Db) (id : String) (i : Identity) (code : String) (paid rate : ℕ) {db' : Db}
    → insert_award e db id i code paid rate ≡ ok db'
    → Known db.identities i
    → Inv db
    → Inv db'
unfolding insert_award
insert_award-Inv e db id i code paid rate {db'} h k v =
    let awarded = awarded_count code db.entries in
    elim (Bool-cases (ltb_ℤ awarded (pos paid) && owner_exists db.identities code i db.owners)) [
      | inr n ↦
          let q : ok db ≡ ok db' = sym (if_false _ _ _ n) ∙ h in
          let same : db' ≡ db = ground arith in subst Inv (sym same) v
      | inl y ↦
          gain-Inv db db' (invite_entry e id i code paid rate awarded) (sym (if_true _ _ _ y) ∙ h) k
            (scale-nonneg (pos paid +ℤ neg awarded) rate
              (difference-nonneg awarded (pos paid) (first_of (ltb_ℤ awarded (pos paid)) _ y)))
            v
    ]
  where
    first_of : (a b : Bool) → (a && b) ≡ true → a ≡ true
    first_of a b m = ground arith

settled-Inv :
    (db : Db) (r : Result Db) → ((db' : Db) → r ≡ ok db' → Inv db') → Inv db → Inv (settled db r).0
settled-Inv db (ok x) f v = f x refl
settled-Inv db (err x) f v = v

with_id-Inv :
    (e : Env) (db : Db) (i : Identity) (code : String) (n rate : ℕ) (o : Option String)
    → Known db.identities i
    → Inv db
    → Inv (with_id e db i code n rate o).0
with_id-Inv e db i code n rate none k v = v
with_id-Inv e db i code n rate (some id) k v =
    settled-Inv db (insert_award e db id i code n rate)
      (λ db' h. insert_award-Inv e db id i code n rate h k v) v

credit_count-Inv :
    (e : Env) (db : Db) (i : Identity) (code : String) (paid : ℤ) (rate : ℕ)
    → Known db.identities i
    → Inv db
    → Inv (credit_count e db i code paid rate).0
unfolding credit_count
credit_count-Inv e db i code (negsuc n) rate k v = v
credit_count-Inv e db i code (pos n) rate k v = elim (Bool-cases (ltb (max_integer / rate) n)) [
  | inl y ↦ rw y v
  | inr m ↦ rw m (with_id-Inv e db i code n rate e.new_id k v)
]

credit_code-Inv :
    (initial : Identity → String) (e : Env) (db : Db) (bindings : List OwnerRow)
    (identity : Identity) (paid policy : ℤ) (code : Option String)
    → Inv db
    → Inv (credit_code initial e db bindings identity paid policy code).0
credit_code-Inv initial e db bindings identity paid policy none v = v
credit_code-Inv initial e db bindings identity paid policy (some code) v =
    let i = scope e identity in
    let db₁ = (ensure_identity initial e i db).0 in
    let (v₁, k) = ensure-Inv initial e i db v in
    elim (Bool-cases (owner_verified db₁.identities bindings code i db₁.owners)) [
      | inr n ↦ subst (λ (r : Db × Option Error). Inv r.0) (sym (if_false _ _ _ n)) v₁
      | inl y ↦
          subst (λ (r : Db × Option Error). Inv r.0) (sym (if_true _ _ _ y))
            (credit_count-Inv e db₁ i code paid (points_per_invitee policy) k v₁)
    ]

-- the invariant of the ledger
pub credit_invite_points-Inv :
    (initial : Identity → String) (upper : String → String) (e : Env) (db : Db)
    (bindings : List OwnerRow) (identity : Identity) (value : String) (paid policy : ℤ)
    → Inv db
    → Inv (credit_invite_points initial upper e db bindings identity value paid policy).0
unfolding credit_invite_points
credit_invite_points-Inv initial upper e db bindings identity value paid policy v =
    credit_code-Inv initial e db bindings identity paid policy
      (normalize_affiliate_code upper value) v

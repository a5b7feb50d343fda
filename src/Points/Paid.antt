-- ===== src/Points/Paid.antt =====
-- `creditInvitePoints` of go/affiliate_commands.go over several calls.
use erdai_agent.Prelude.{
  ℕ, ◌/◌, Bool, false, ◌&&◌, ltb, String, Option, none, some, List, ℤ, pos, negsuc, ◌≤ℤ◌, ltb_ℤ,
  ◌≡◌, refl, sym, ap, subst, ◌∙◌, arith, Bool-cases, Option-cases, inl, inr, if_true, if_false,
}
use erdai_agent.Core.{Env, Error, ok}
use erdai_agent.Points.Store.{Identity, OwnerRow, Db}
use erdai_agent.Points.Accounts.{scope, ensure_identity}
use erdai_agent.Points.Invite.{
  points_per_invitee, awarded_count, insert_award, owner_verified, credit_count, credit_code,
  credit_invite_points, normalize_affiliate_code,
}
use erdai_agent.Points.Mark.{Awarded, ensure-entries, credit_invite_points-Awarded}
use erdai_agent.Points.Decimal.{max_integer}

le-not_below : (a b : ℤ) → b ≤ℤ a → ltb_ℤ a b ≡ false
le-not_below a b h = ground arith

insert_award-below :
    (e : Env) (db : Db) (id : String) (i : Identity) (code : String) (paid rate : ℕ)
    → pos paid ≤ℤ awarded_count code db.entries
    → insert_award e db id i code paid rate ≡ ok db
unfolding insert_award
insert_award-below e db id i code paid rate h = if_false _ _ _ (
    off (ltb_ℤ (awarded_count code db.entries) (pos paid)) _
      (le-not_below (awarded_count code db.entries) (pos paid) h))
  where
    off : (a b : Bool) → a ≡ false → (a && b) ≡ false
    off a b k = ground arith

credit_count-below :
    (e : Env) (db : Db) (i : Identity) (code : String) (paid : ℤ) (rate : ℕ)
    → paid ≤ℤ awarded_count code db.entries
    → (credit_count e db i code paid rate).0 ≡ db
unfolding credit_count
credit_count-below e db i code (negsuc n) rate h = refl
credit_count-below e db i code (pos n) rate h = elim (Bool-cases (ltb (max_integer / rate) n)) [
  | inl y ↦ rw y refl
  | inr m ↦ rw m (elim (Option-cases e.new_id) [
    | inl z ↦ rw z refl
    | inr (id, z) ↦ rw (z, insert_award-below e db id i code n rate h) refl
  ])
]

mark_reached :
    (code : String) (n rate : ℕ) (db db' : Db)
    → Awarded code n rate db db'
    → pos n ≤ℤ awarded_count code db'.entries
mark_reached code n rate db db' (inl (same, le)) =
    subst (λ xs. pos n ≤ℤ awarded_count code xs) (sym same) le
mark_reached code n rate db db' (inr (x, entries, le, p, m)) =
    subst (λ k. pos n ≤ℤ k) (sym m) (omega arith)

credit_code-below :
    (initial : Identity → String) (e : Env) (db : Db) (bindings : List OwnerRow)
    (identity : Identity) (paid policy : ℤ) (code : String)
    → paid ≤ℤ awarded_count code db.entries
    → (credit_code initial e db bindings identity paid policy (some code)).0.entries ≡ db.entries
credit_code-below initial e db bindings identity paid policy code h =
    let i = scope e identity in
    let db₁ = (ensure_identity initial e i db).0 in
    let q = ensure-entries initial e i db in
    elim (Bool-cases (owner_verified db₁.identities bindings code i db₁.owners)) [
      | inr n ↦ ap (λ (r : Db × Option Error). r.0.entries) (if_false _ _ _ n) ∙ q
      | inl y ↦
          ap (λ (r : Db × Option Error). r.0.entries) (if_true _ _ _ y)
          ∙ ap (λ (d : Db). d.entries)
              (credit_count-below e db₁ i code paid (points_per_invitee policy)
                (subst (λ xs. paid ≤ℤ awarded_count code xs) (sym q) h))
          ∙ q
    ]

ℤ-trans : (a b c : ℤ) → a ≤ℤ b → b ≤ℤ c → a ≤ℤ c
ℤ-trans a b c h k = omega arith

-- Points for an invitation code are given once: after a call that reported no error, no call for the
-- same code with the same or a smaller count, by any member, under any policy and at any time, adds
-- an entry to the ledger.
pub credit_invite_points-once :
    (initial : Identity → String) (upper : String → String) (e e' : Env) (db : Db)
    (bindings bindings' : List OwnerRow) (identity identity' : Identity)
    (value value' code : String) (paid paid' policy policy' : ℤ) {db' : Db}
    → normalize_affiliate_code upper value ≡ some code
    → normalize_affiliate_code upper value' ≡ some code
    → credit_invite_points initial upper e db bindings identity value paid policy ≡ (db', none)
    → paid' ≤ℤ paid
    → (credit_invite_points initial upper e' db' bindings' identity' value' paid' policy').0.entries
      ≡ db'.entries
unfolding credit_invite_points
credit_invite_points-once initial upper e e' db bindings bindings' identity identity' value value'
      code paid paid' policy policy' {db'} z z' h le =
    let (n, p, a) =
      credit_invite_points-Awarded initial upper e db bindings identity value code paid policy z
        h in
    let reached = mark_reached code n (points_per_invitee policy) db db' a in
    let below =
      ℤ-trans paid' paid (awarded_count code db'.entries) le
        (subst (λ m. m ≤ℤ awarded_count code db'.entries) (sym p) reached) in
    ap (λ o. (credit_code initial e' db' bindings' identity' paid' policy' o).0.entries) z'
    ∙ credit_code-below initial e' db' bindings' identity' paid' policy' code below

-- ===== src/Points/Mark.antt =====
-- `creditInvitePoints` of go/affiliate_commands.go keeps a mark for each code: what was credited once
-- is not credited again.
use Prim.Native.String.{◌++◌ as concat}
use text.Mathlib.TextLemmas.{nil-append, cons-append}
use erdai_agent.Prelude.{
  ℕ, ◌/◌, ◌≤◌, Bool, true, false, ◌&&◌, ◌||◌, ltb, String, Option, none, some, List, [], ◌∷◌, ◌++◌,
  ℤ, pos, negsuc, ◌+ℤ◌, neg, ◌≤ℤ◌, ltb_ℤ, ◌≡◌, refl, sym, ap, subst, ◌∙◌, arith, Bool-cases,
  Option-cases, inl, inr, ◌⊎◌, if_true, if_false,
}
use erdai_agent.Core.{Env, Result, ok, err}
use erdai_agent.Text.{has_prefix, drop_chars}
use erdai_agent.Points.Store.{Identity, IdentityRow, Entry, OwnerRow, Db, insert_entry}
use erdai_agent.Points.Accounts.{scope, ensure_identity, add_account, add_identity}
use erdai_agent.Points.Conserve.{insert_entry-effect}
use erdai_agent.Points.Decimal.{decimal, cast_integer, cast_integer-decimal, max_integer}
use erdai_agent.Points.Invite.{
  points_per_invitee, invite_prefix, is_adjustment, larger, mark_from, or_zero, awarded_count,
  scale, invite_entry, insert_award, owner_exists, owner_verified, owns, is_bound, settled, with_id,
  credit_count, credit_code, credit_invite_points, normalize_affiliate_code,
}

prefix-append : (p s : String) → has_prefix (concat p s) p ≡ true
unfolding has_prefix
prefix-append String.[] s = ap (λ t. has_prefix t "") (nil-append s) ∙ any s
  where
    any : (t : String) → has_prefix t "" ≡ true
    any String.[] = refl
    any (String.◌∷◌ c t) = refl
prefix-append (String.◌∷◌ c p) s =
    ap (λ t. has_prefix t (String.◌∷◌ c p)) (cons-append c p s)
    ∙ rw (prefix-append p s) (ground arith)

drop-append : (p s : String) → drop_chars (concat p s) p ≡ s
unfolding drop_chars
drop-append String.[] s = ap (λ t. drop_chars t "") (nil-append s) ∙ any s
  where
    any : (t : String) → drop_chars t "" ≡ t
    any String.[] = refl
    any (String.◌∷◌ c t) = refl
drop-append (String.◌∷◌ c p) s =
    ap (λ t. drop_chars t (String.◌∷◌ c p)) (cons-append c p s) ∙ drop-append p s

mark-snoc :
    (prefix : String) (xs : List Entry) (acc : Option ℤ) (x : Entry) (n : ℤ)
    → is_adjustment x.kind ≡ true
    → has_prefix x.reference_key prefix ≡ true
    → cast_integer (drop_chars x.reference_key prefix) ≡ n
    → mark_from prefix acc (xs ++ x ∷ []) ≡ larger (mark_from prefix acc xs) n
unfolding mark_from
mark-snoc prefix [] acc x n a p c = rw (a, p, c) refl
mark-snoc prefix (y ∷ ys) acc x n a p c = mark-snoc prefix ys _ x n a p c

larger-mark : (o : Option ℤ) (n : ℤ) → ltb_ℤ (or_zero o) n ≡ true → or_zero (larger o n) ≡ n
larger-mark none n h = refl
larger-mark (some m) n h = rw h refl

-- the mark after an award
awarded-snoc :
    (e : Env) (id : String) (i : Identity) (code : String) (paid rate : ℕ) (xs : List Entry)
    → paid ≤ max_integer
    → ltb_ℤ (awarded_count code xs) (pos paid) ≡ true
    → awarded_count code (xs ++ invite_entry e id i code paid rate (awarded_count code xs) ∷ [])
      ≡ pos paid
unfolding awarded_count
awarded-snoc e id i code paid rate xs fits up =
    let x = invite_entry e id i code paid rate (or_zero (mark_from (invite_prefix code) none xs)) in
    ap or_zero (
      mark-snoc (invite_prefix code) xs none x (pos paid) refl
        (prefix-append (invite_prefix code) (decimal paid))
        (ap cast_integer (drop-append (invite_prefix code) (decimal paid))
          ∙ cast_integer-decimal paid fits))
    ∙ larger-mark (mark_from (invite_prefix code) none xs) (pos paid) up

-- What an award does: nothing where the mark is not below the count; where it is below, it sets the
-- mark to the count and gives the points of the difference.
abbrev pub Awarded : String → ℕ → ℕ → Db → Db → Type 0
Awarded code paid rate db db' =
    ((db'.entries ≡ db.entries) × (pos paid ≤ℤ awarded_count code db.entries))
    ⊎ ((x : Entry) × (db'.entries ≡ db.entries ++ x ∷ [])
        × (ltb_ℤ (awarded_count code db.entries) (pos paid) ≡ true)
        × (x.points ≡ scale (pos paid +ℤ neg (awarded_count code db.entries)) rate)
        × (awarded_count code db'.entries ≡ pos paid))

not_below : (a b : ℤ) → ltb_ℤ a b ≡ false → b ≤ℤ a
not_below a b h = ground arith

insert_award-Awarded :
    (e : Env) (db : Db) (id : String) (i : Identity) (code : String) (paid rate : ℕ) {db' : Db}
    → owner_exists db.identities code i db.owners ≡ true
    → paid ≤ max_integer
    → insert_award e db id i code paid rate ≡ ok db'
    → Awarded code paid rate db db'
unfolding insert_award
insert_award-Awarded e db id i code paid rate {db'} o fits h =
    let awarded = awarded_count code db.entries in
    elim (Bool-cases (ltb_ℤ awarded (pos paid))) [
      | inr n ↦
          let off : (ltb_ℤ awarded (pos paid) && owner_exists db.identities code i db.owners)
              ≡ false =
            rw n refl in
          let q : ok db ≡ ok db' = sym (if_false _ _ _ off) ∙ h in
          let same : db' ≡ db = ground arith in
          inl (ap (λ d. d.entries) same, not_below awarded (pos paid) n)
      | inl y ↦
          let on : (ltb_ℤ awarded (pos paid) && owner_exists db.identities code i db.owners)
              ≡ true =
            rw (y, o) refl in
          let x = invite_entry e id i code paid rate awarded in
          let q : insert_entry x db ≡ ok db' = sym (if_true _ _ _ on) ∙ h in
          let (_, entries, _, _, _) = insert_entry-effect x db q in
          inr (
            x,
            entries,
            y,
            refl,
            ap (awarded_count code) entries ∙ awarded-snoc e id i code paid rate db.entries fits y,
          )
    ]

verified-exists :
    (rows : List IdentityRow) (bindings : List OwnerRow) (code : String) (i : Identity)
    (os : List OwnerRow)
    → owner_verified rows bindings code i os ≡ true
    → owner_exists rows code i os ≡ true
unfolding owner_verified owner_exists
verified-exists rows bindings code i [] h = cc
verified-exists rows bindings code i (o ∷ os) h = elim (Bool-cases (owns rows code i o)) [
  | inl y ↦ rw y refl
  | inr n ↦ rw n (
      verified-exists rows bindings code i os
        (rest (is_bound o bindings) (owns rows code i o) _ n h))
]
  where
    rest : (a b c : Bool) → b ≡ false → ((a && b) || c) ≡ true → c ≡ true
    rest a b c n k = ground arith

pub ensure-entries :
    (initial : Identity → String) (e : Env) (i : Identity) (db : Db)
    → (ensure_identity initial e i db).0.entries ≡ db.entries
unfolding ensure_identity add_account add_identity
ensure-entries initial e i db = ground arith

settled-ok : (db : Db) (r : Result Db) {db' : Db} → settled db r ≡ (db', none) → r ≡ ok db'
settled-ok db (ok x) h = ground arith
settled-ok db (err x) h = absurd (ground arith)

not_over : (a b : ℕ) → ltb b a ≡ false → b ≤ max_integer → a ≤ max_integer
not_over a b h l = ground arith

quotient_le : (r : ℕ) → max_integer / r ≤ max_integer
quotient_le r = omega arith

pub credit_count-Awarded :
    (e : Env) (db : Db) (i : Identity) (code : String) (paid : ℤ) (rate : ℕ) {db' : Db}
    → owner_exists db.identities code i db.owners ≡ true
    → credit_count e db i code paid rate ≡ (db', none)
    → (n : ℕ) × (paid ≡ pos n) × Awarded code n rate db db'
unfolding credit_count
credit_count-Awarded e db i code (negsuc n) rate o h = absurd (ground arith)
credit_count-Awarded e db i code (pos n) rate {db'} o h =
    elim (Bool-cases (ltb (max_integer / rate) n)) [
      | inl y ↦ absurd (ground arith)
      | inr m ↦
          let h' : with_id e db i code n rate e.new_id ≡ (db', none) = sym (if_false _ _ _ m) ∙ h in
          let fits : n ≤ max_integer = not_over n (max_integer / rate) m (quotient_le rate) in
          elim (Option-cases e.new_id) [
            | inl z ↦ absurd (let k = ap (with_id e db i code n rate) (sym z) ∙ h' in ground arith)
            | inr (id, z) ↦
                let q : settled db (insert_award e db id i code n rate) ≡ (db', none) =
                  ap (with_id e db i code n rate) (sym z) ∙ h' in
                (n, refl, insert_award-Awarded e db id i code n rate o fits (settled-ok db _ q))
          ]
    ]

Awarded-entries :
    (code : String) (n rate : ℕ) (db db₁ db' : Db)
    → db₁.entries ≡ db.entries
    → Awarded code n rate db₁ db'
    → Awarded code n rate db db'
Awarded-entries code n rate db db₁ db' q (inl (same, le)) =
    inl (same ∙ q, subst (λ xs. pos n ≤ℤ awarded_count code xs) q le)
Awarded-entries code n rate db db₁ db' q (inr (x, entries, le, p, m)) = inr (
  x,
  entries ∙ ap (λ xs. xs ++ x ∷ []) q,
  subst (λ xs. ltb_ℤ (awarded_count code xs) (pos n) ≡ true) q le,
  p ∙ ap (λ xs. scale (pos n +ℤ neg (awarded_count code xs)) rate) q,
  m,
)

-- A call that reports no error pays for a code what is new and nothing else: where the mark of the
-- code was not below the count of invited users who paid, the ledger stays as it is; where it was
-- below, one entry gives the points of the difference, and the mark is the count.
pub credit_invite_points-Awarded :
    (initial : Identity → String) (upper : String → String) (e : Env) (db : Db)
    (bindings : List OwnerRow) (identity : Identity) (value code : String) (paid policy : ℤ)
    {db' : Db}
    → normalize_affiliate_code upper value ≡ some code
    → credit_invite_points initial upper e db bindings identity value paid policy ≡ (db', none)
    → (n : ℕ) × (paid ≡ pos n) × Awarded code n (points_per_invitee policy) db db'
unfolding credit_invite_points
credit_invite_points-Awarded initial upper e db bindings identity value code paid policy {db'} z h =
    let i = scope e identity in
    let db₁ = (ensure_identity initial e i db).0 in
    let h₁ : credit_code initial e db bindings identity paid policy (some code) ≡ (db', none) =
      ap (credit_code initial e db bindings identity paid policy) (sym z) ∙ h in
    elim (Bool-cases (owner_verified db₁.identities bindings code i db₁.owners)) [
      | inr n ↦ absurd (let k = sym (if_false _ _ _ n) ∙ h₁ in ground arith)
      | inl y ↦
          let h₂ = sym (if_true _ _ _ y) ∙ h₁ in
          let o = verified-exists db₁.identities bindings code i db₁.owners y in
          let (n, p, a) = credit_count-Awarded e db₁ i code paid (points_per_invitee policy) o h₂ in
          (
            n,
            p,
            Awarded-entries code n (points_per_invitee policy) db db₁ db'
                (ensure-entries initial e i db) a,
          )
    ]

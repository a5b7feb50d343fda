-- ===== src/Points/Totals.antt =====
-- The balance of go/points_accounts.go as a sum over the ledger, and how it moves with the ledger and
-- with the owner of an identity.
use text.Mathlib.TextPositions.{eq_refl}
use erdai_agent.Prelude.{
  true, false, ◌||◌, if◌then◌else◌, String, Option, none, some, ◌≡◌, refl, arith, List, [], ◌∷◌,
  ◌++◌, ℤ, pos, ◌+ℤ◌, inl, inr, Bool-cases, str_eq, eq_iff, ap, ◌∙◌, sym, +ℤ_assoc, +ℤ_comm,
  +ℤ_zero, zero_+ℤ, int_laws,
}
use erdai_agent.Core.{ok}
use erdai_agent.Points.Store.{
  Identity, IdentityRow, Entry, Db, account_of, belongs, is_account, total, sum_int64, balance,
}
use erdai_agent.Points.Merge.{move_identities}

sum_int64-total :
    (rows : List IdentityRow) (id : String) (acc : ℤ) (xs : List Entry) {v : ℤ}
    → sum_int64 rows id acc xs ≡ ok v
    → v ≡ acc +ℤ total rows id xs
unfolding sum_int64 total
sum_int64-total rows id acc [] {v} h = let e : v ≡ acc = ground arith in e ∙ sym (+ℤ_zero acc)
sum_int64-total rows id acc (x ∷ xs) {v} h = elim (Bool-cases (belongs rows id x)) [
  | inl y ↦
      let h' : sum_int64 rows id (acc +ℤ x.points) xs ≡ ok v = ground arith in
      let q : total rows id (x ∷ xs) ≡ x.points +ℤ total rows id xs = rw y in
      sum_int64-total rows id (acc +ℤ x.points) xs h'
      ∙ +ℤ_assoc acc x.points (total rows id xs)
      ∙ ap (◌+ℤ◌ acc) (sym q)
  | inr n ↦
      let h' : sum_int64 rows id acc xs ≡ ok v = ground arith in
      let q : total rows id (x ∷ xs) ≡ total rows id xs = rw n in
      sum_int64-total rows id acc xs h' ∙ ap (◌+ℤ◌ acc) (sym q)
]

-- A balance that is reported is the sum.
pub balance-total :
    (db : Db) (id : String) {v : ℤ} → balance db id ≡ ok v → v ≡ total db.identities id db.entries
unfolding balance
balance-total db id h =
    sum_int64-total db.identities id (pos 0) db.entries h
    ∙ zero_+ℤ (total db.identities id db.entries)

-- the points that an entry adds to an account
abbrev pub part : List IdentityRow → String → Entry → ℤ
part rows id x = if belongs rows id x then x.points else pos 0

pub total-snoc :
    (rows : List IdentityRow) (id : String) (xs : List Entry) (x : Entry)
    → total rows id (xs ++ x ∷ []) ≡ total rows id xs +ℤ part rows id x
unfolding total
total-snoc rows id [] x = elim (Bool-cases (belongs rows id x)) [
  | inl y ↦ rw y (+ℤ_comm x.points (pos 0))
  | inr n ↦ rw n (sym (+ℤ_zero (pos 0)))
]
total-snoc rows id (y ∷ xs) x = elim (Bool-cases (belongs rows id y)) [
  | inl p ↦ rw p (
      ap (◌+ℤ◌ y.points) (total-snoc rows id xs x)
      ∙ sym (+ℤ_assoc y.points (total rows id xs) (part rows id x)))
  | inr n ↦ rw n (total-snoc rows id xs x)
]

-- who owns an identity once the source's identities moved to the target
abbrev pub moved : String → String → Option String → Option String
moved source target none = none
moved source target (some a) = some (if str_eq a source then target else a)

pub account_of-move :
    (source target : String) (i : Identity) (rows : List IdentityRow)
    → account_of i (move_identities source target rows) ≡ moved source target (account_of i rows)
unfolding account_of move_identities
account_of-move source target i [] = refl
account_of-move source target i (r ∷ rs) = ground (arith, account_of-move source target i rs)

-- the owners before and after, for the three accounts that matter
moved_target :
    (source target : String) (o : Option String)
    → is_account (moved source target o) target ≡ (is_account o target || is_account o source)
moved_target source target none = refl
moved_target source target (some a) = ground (arith, eq_refl target)

moved_source :
    (source target : String) (o : Option String)
    → str_eq source target ≡ false
    → is_account (moved source target o) source ≡ false
moved_source source target none n = refl
moved_source source target (some a) n = ground (arith, eq_iff target source, eq_iff source target)

moved_other :
    (source target other : String) (o : Option String)
    → str_eq source other ≡ false
    → str_eq target other ≡ false
    → is_account (moved source target o) other ≡ is_account o other
moved_other source target other none n m = refl
moved_other source target other (some a) n m = ground (arith, eq_iff a source)

one_owner :
    (source target : String) (o : Option String)
    → str_eq source target ≡ false
    → is_account o target ≡ true
    → is_account o source ≡ true
    → ⊥
one_owner source target none n p q = cc
one_owner source target (some a) n p q =
    ground (arith, eq_iff a target, eq_iff a source, eq_iff source target)

put_in : (a b c : ℤ) → a +ℤ (b +ℤ c) ≡ b +ℤ (a +ℤ c)
put_in a b c = omega int_laws

-- After the move the target has the points of both accounts.
pub total-move_target :
    (source target : String) (rows : List IdentityRow) (xs : List Entry)
    → str_eq source target ≡ false
    → total (move_identities source target rows) target xs
      ≡ total rows target xs +ℤ total rows source xs
unfolding total
total-move_target source target rows [] n = sym (+ℤ_zero (pos 0))
total-move_target source target rows (x ∷ xs) n =
    let o = account_of x.identity rows in
    let ih = total-move_target source target rows xs n in
    let b : belongs (move_identities source target rows) target x
        ≡ (is_account o target || is_account o source) =
      ap (λ p. is_account p target) (account_of-move source target x.identity rows)
      ∙ moved_target source target o in
    elim (Bool-cases (is_account o target)) [
      | inl y ↦ elim (Bool-cases (is_account o source)) [
        | inl z ↦ absurd (one_owner source target o n y z)
        | inr m ↦
            rw (b, y, m)
              (ap (◌+ℤ◌ x.points) ih
                ∙ sym (+ℤ_assoc x.points (total rows target xs) (total rows source xs)))
      ]
      | inr k ↦ elim (Bool-cases (is_account o source)) [
        | inl z ↦
            rw (b, k, z)
              (ap (◌+ℤ◌ x.points) ih
                ∙ put_in x.points (total rows target xs) (total rows source xs))
        | inr m ↦ rw (b, k, m) ih
      ]
    ]

pub total-move_source :
    (source target : String) (rows : List IdentityRow) (xs : List Entry)
    → str_eq source target ≡ false
    → total (move_identities source target rows) source xs ≡ pos 0
unfolding total
total-move_source source target rows [] n = refl
total-move_source source target rows (x ∷ xs) n =
    let b : belongs (move_identities source target rows) source x ≡ false =
      ap (λ p. is_account p source) (account_of-move source target x.identity rows)
      ∙ moved_source source target (account_of x.identity rows) n in
    rw b (total-move_source source target rows xs n)

pub total-move_other :
    (source target other : String) (rows : List IdentityRow) (xs : List Entry)
    → str_eq source other ≡ false
    → str_eq target other ≡ false
    → total (move_identities source target rows) other xs ≡ total rows other xs
unfolding total
total-move_other source target other rows [] n m = refl
total-move_other source target other rows (x ∷ xs) n m =
    let b : belongs (move_identities source target rows) other x ≡ belongs rows other x =
      ap (λ p. is_account p other) (account_of-move source target x.identity rows)
      ∙ moved_other source target other (account_of x.identity rows) n m in
    let ih = total-move_other source target other rows xs n m in rw (b, ih)

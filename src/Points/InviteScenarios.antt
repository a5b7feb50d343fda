-- ===== src/Points/InviteScenarios.antt =====
-- Runs of `creditInvitePoints` of go/affiliate_commands.go on concrete tables.
use erdai_agent.Prelude.{ℕ, none, some, ◌≡◌, refl, arith, [], ◌∷◌, pos, negsuc, ◌+ℤ◌, neg}
use erdai_agent.Text.{trim_space, has_prefix, fold_case}
use erdai_agent.Points.Store.{OwnerRow, Db, account_of, find_account, insert_entry, entry_clash}
use erdai_agent.Points.Accounts.{scope, ensure_identity, add_account, add_identity}
use erdai_agent.Points.Decimal.{decimal, cast_integer, leading_number, signed_number}
use erdai_agent.Points.Invite.{
  normalize_affiliate_code, points_per_invitee, same_code, is_bound, owner_exists, owner_verified,
  mark_from, awarded_count, scale, insert_award, credit_count, credit_invite_points,
}
use erdai_agent.Points.Mark.{Awarded, credit_invite_points-Awarded}
use erdai_agent.Points.Paid.{credit_invite_points-once}
use erdai_agent.Points.Scenarios.{env, ana, bea, two_accounts}

abbrev owned : OwnerRow
owned = record { affiliate_code = "ABCD"; identity = ana }

abbrev invited : Db
invited = record two_accounts { owners = owned ∷ [] }

abbrev credited : Db
credited =
    (credit_invite_points (λ i. "new") (λ t. t) (env 5) invited (owned ∷ []) ana " ABCD" (pos 3)
      (pos 0)).0

cast_test : cast_integer " -12x" ≡ negsuc 11
unfolding cast_integer signed_number leading_number neg
cast_test = refl

same_code_test : normalize_affiliate_code (λ t. t) " ABCD" ≡ some "ABCD"
unfolding normalize_affiliate_code trim_space
same_code_test = refl

credited_eq :
    credit_invite_points
      (λ i. "new")
      (λ t. t)
      (env 5)
      invited
      (owned ∷ [])
      ana
      " ABCD"
      (pos 3)
      (pos 0)
    ≡ (credited, none)
unfolding credit_invite_points normalize_affiliate_code trim_space scope ensure_identity account_of
    find_account add_account add_identity owner_verified is_bound same_code fold_case credit_count
    points_per_invitee insert_award awarded_count mark_from has_prefix owner_exists insert_entry
    entry_clash ◌+ℤ◌ neg scale decimal
credited_eq = refl

credit_invite_points-Awarded_example :
    (n : ℕ) × (pos 3 ≡ pos n) × Awarded "ABCD" n (points_per_invitee (pos 0)) invited credited
credit_invite_points-Awarded_example =
    credit_invite_points-Awarded (λ i. "new") (λ t. t) (env 5) invited (owned ∷ []) ana " ABCD"
      "ABCD" (pos 3) (pos 0) same_code_test credited_eq

credit_invite_points-once_example :
    (credit_invite_points
      (λ i. "new")
      (λ t. t)
      (env 9)
      credited
      (owned ∷ [])
      bea
      " ABCD"
      (pos 2)
      (pos 500)).0.entries
    ≡ credited.entries
credit_invite_points-once_example =
    credit_invite_points-once (λ i. "new") (λ t. t) (env 5) (env 9) invited (owned ∷ [])
      (owned ∷ []) ana bea " ABCD" " ABCD" "ABCD" (pos 3) (pos 2) (pos 0) (pos 500) same_code_test
      same_code_test credited_eq (omega arith)

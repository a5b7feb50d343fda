-- ===== src/Points/Merge.antt =====
-- `mergePointsAccounts` of go/points_accounts.go: the source's identities, check-ins and orders move
-- to the target, and the source points to it from then on.
use Prim.Native.Char.{code}
use Prim.Native.String.{len}
use erdai_agent.Prelude.{
  Bool, true, false, not, ◌&&◌, ◌||◌, if◌then◌else◌, String, str_eq, List, [], ◌∷◌, ◌++◌, ltb, ◌==◌,
}
use erdai_agent.Core.{
  Env, now_stamp, Result, ok, err, ◌>>=◌, ◌>>◌, guard, invalid, conflict, failed,
}
use erdai_agent.Text.{trim_space, fold_case}
use erdai_agent.Points.Store.{
  Account, IdentityRow, CheckInRow, MergeRow, Order, OwnerRow, Db, account_of, is_account,
  canonical, balance,
}
use erdai_agent.Points.Accounts.{touch}

-- the collation NOCASE folds the ASCII letters
unfoldable pub nocase_eq : String → String → Bool
unfolding fold_case
nocase_eq String.[] String.[] = true
nocase_eq String.[] (String.◌∷◌ d t) = false
nocase_eq (String.◌∷◌ c s) String.[] = false
nocase_eq (String.◌∷◌ c s) (String.◌∷◌ d t) =
    fold_case (code c) == fold_case (code d) && nocase_eq s t

code_mem : String → List String → Bool
code_mem c [] = false
code_mem c (d ∷ ds) = nocase_eq c d || code_mem c ds

-- the distinct codes of the owners that stand behind either account
unfoldable pub owner_codes : List IdentityRow → String → String → List OwnerRow → List String
unfolding code_mem nocase_eq
owner_codes rows a b [] = []
owner_codes rows a b (o ∷ os) =
    let rest = owner_codes rows a b os in
    let acc = account_of o.identity rows in
    if (is_account acc a || is_account acc b) && not (code_mem o.affiliate_code rest)
    then o.affiliate_code ∷ rest
    else rest

abbrev many : List String → Bool
many [] = false
many (c ∷ []) = false
many (c ∷ d ∷ cs) = true

-- UPDATE agent_points_identities SET account_id = target WHERE account_id = source
unfoldable pub move_identities : String → String → List IdentityRow → List IdentityRow
move_identities source target [] = []
move_identities source target (r ∷ rs) =
    (if str_eq r.account_id source then record r { account_id = target } else r)
    ∷ move_identities source target rs

unfoldable pub move_orders : String → String → List Order → List Order
move_orders source target [] = []
move_orders source target (o ∷ os) =
    (if str_eq o.account_id source then record o { account_id = target } else o)
    ∷ move_orders source target os

-- UPDATE agent_points_accounts SET merged_into = target WHERE id = source OR merged_into = source
unfoldable pub move_accounts : Env → String → String → List Account → List Account
move_accounts e source target [] = []
move_accounts e source target (a ∷ rest) =
    (if str_eq a.id source || str_eq a.merged_into source
      then record a { merged_into = target; updated_at = now_stamp e }
      else a)
    ∷ move_accounts e source target rest

unfoldable pub has_checkin : String → String → List CheckInRow → Bool
has_checkin id day [] = false
has_checkin id day (c ∷ cs) = (str_eq c.account_id id && str_eq c.day day) || has_checkin id day cs

-- INSERT OR IGNORE INTO agent_points_checkins
unfoldable pub put_checkin : String → String → List CheckInRow → List CheckInRow
put_checkin id day cs =
    if has_checkin id day cs then cs else cs ++ record { account_id = id; day = day } ∷ []

-- … SELECT target, day FROM agent_points_checkins WHERE account_id = source
unfoldable pub copy_checkins : String → String → List CheckInRow → List CheckInRow → List CheckInRow
copy_checkins source target [] out = out
copy_checkins source target (c ∷ cs) out =
    copy_checkins source target cs
      (if str_eq c.account_id source then put_checkin target c.day out else out)

unfoldable pub merged_before : String → List MergeRow → Bool
merged_before id [] = false
merged_before id (m ∷ ms) = str_eq m.source_account_id id || merged_before id ms

-- the five statements of the loop, of which the first can fail on its primary key
unfoldable pub merge_rows : Env → Db → String → String → String → Result Db
merge_rows e db source target evidence =
    if merged_before source db.merges
    then err (failed "UNIQUE constraint failed: agent_points_account_merges")
    else ok (record db {
      merges =
          db.merges
          ++ record {
            source_account_id = source;
            target_account_id = target;
            evidence = trim_space evidence;
          }
            ∷ [];
      checkins = copy_checkins source target db.checkins db.checkins;
      identities = move_identities source target db.identities;
      orders = move_orders source target db.orders;
      accounts = move_accounts e source target db.accounts;
    })

unfoldable pub merge_input : String → String → String → Bool
merge_input source target evidence =
    str_eq (trim_space evidence) ""
    || ltb 1000 (len evidence)
    || str_eq source ""
    || str_eq target ""
    || str_eq source target

-- the last read checks that the joint balance is a number of 64 bits
unfoldable pub merge_into : Env → Db → String → String → String → Result (Db × String)
merge_into e db source target evidence = do
  guard (not (many (owner_codes db.identities source target db.owners)))
      (conflict "points_owner_conflict")
  db' ← merge_rows e db source target evidence
  sum ← balance db' target
  ok (db', target)

unfoldable pub merge_accounts : Env → Db → String → String → String → Result (Db × String)
merge_accounts e db source target evidence = do
  guard (not (merge_input source target evidence)) (invalid "两个不同账户及身份核验说明为必填项")
  let db' = record db { accounts = touch e target db.accounts }
  from ← canonical db' source
  to ← canonical db' target
  if str_eq from to
      then ok (db, to)
      else if not (str_eq from source)
      then err (conflict "points_account_already_merged")
      else merge_into e db' source to evidence

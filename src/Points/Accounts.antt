-- ===== src/Points/Accounts.antt =====
-- `pointsScope`, `ensurePointsIdentity` and `linkPointsIdentity` of go/points_accounts.go.
use Prim.Native.String.{len}
use erdai_agent.Prelude.{
  Bool, not, ◌&&◌, ◌||◌, if◌then◌else◌, String, Option, none, some, str_eq, List, [], ◌∷◌, ◌++◌,
  ltb,
}
use erdai_agent.Core.{Env, now_stamp, Result, ok, err, ◌>>=◌, invalid, conflict}
use erdai_agent.Text.{trim_space}
use erdai_agent.Points.Store.{Identity, Account, Db, account_of, find_account, canonical}

-- `pointsScope`, and so `pointIdentity`
unfoldable pub scope : Env → Identity → Identity
scope e i = record {
  transport = e.lower (trim_space i.transport);
  transport_instance = trim_space i.transport_instance;
  sender_ref = trim_space i.sender_ref;
}

-- INSERT OR IGNORE INTO agent_points_accounts … WHERE NOT EXISTS (the identity)
unfoldable pub add_account : Env → String → Option String → Db → Db
add_account e id known db = elim known [
  | some a ↦ db
  | none ↦ elim (find_account id db.accounts) [
    | some a ↦ db
    | none ↦ record db {
      accounts = db.accounts ++ record { id = id; merged_into = ""; updated_at = now_stamp e } ∷ [];
    }
  ]
]

-- INSERT OR IGNORE INTO agent_points_identities
unfoldable pub add_identity : Identity → String → Option String → Db → Db
add_identity i id known db = elim known [
  | some a ↦ db
  | none ↦ record db { identities = db.identities ++ record { identity = i; account_id = id } ∷ [] }
]

abbrev pub known_or : Option String → String → String
known_or none id = id
known_or (some a) id = a

-- `ensurePointsIdentity`; `initial` is `initialAccountID`, a digest of the identity
unfoldable pub ensure_identity : (Identity → String) → Env → Identity → Db → Db × String
unfolding add_account add_identity
ensure_identity initial e i db =
    let known = account_of i db.identities in
    (
      add_identity i (initial i) known (add_account e (initial i) known db),
      known_or known (initial i),
    )

-- `qqAffiliateTransport`
unfoldable pub qq_affiliate_transport : Env → String → Bool
qq_affiliate_transport e value =
    let v = e.lower (trim_space value) in
    str_eq v "qq_official"
    || str_eq v "qq_official_webhook"
    || str_eq v "aiocqhttp"
    || str_eq v "onebot"

unfoldable pub link_valid : Env → Identity → String → Bool
link_valid e i evidence =
    (qq_affiliate_transport e i.transport
      || str_eq i.transport "sub2api"
      || str_eq i.transport "newapi")
    && not (str_eq i.transport_instance "")
    && not (ltb 200 (len i.transport_instance))
    && not (str_eq i.sender_ref "")
    && not (ltb 128 (len i.sender_ref))
    && not (str_eq (trim_space evidence) "")
    && not (ltb 1000 (len evidence))

-- UPDATE agent_points_accounts SET updated_at = ? WHERE id = ?
unfoldable pub touch : Env → String → List Account → List Account
touch e id [] = []
touch e id (a ∷ rest) =
    (if str_eq a.id id then record a { updated_at = now_stamp e } else a) ∷ touch e id rest

-- the transaction of `linkPointsIdentity`, for a valid identity
unfoldable pub link_in : Env → Db → String → Identity → String → Result (Db × String)
link_in e db account_id i evidence = do
  let db' = record db { accounts = touch e account_id db.accounts }
  account ← canonical db' account_id
  elim (account_of i db'.identities) [
    | some existing ↦
        if str_eq existing account
        then ok (db, account)
        else err (conflict "points_identity_already_linked")
    | none ↦ ok (
      record db' {
        identities = db'.identities ++ record { identity = i; account_id = account } ∷ [];
        links =
            db'.links
            ++ record { identity = i; account_id = account; evidence = trim_space evidence } ∷ [];
      },
      account,
    )
  ]

unfoldable pub link_identity : Env → Db → String → Identity → String → Result (Db × String)
link_identity e db account_id identity evidence =
    let i = scope e identity in
    if link_valid e i evidence
    then link_in e db account_id i evidence
    else err (invalid "平台、实例、用户 ID 和身份核验说明为必填项")

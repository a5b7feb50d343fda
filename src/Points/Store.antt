-- ===== src/Points/Store.antt =====
-- The tables of go/points_accounts.go and the ledger of go/core_schema.go, and the queries that the
-- operations share. Rows keep the order of their insertion.
use erdai_agent.Prelude.{
  ℕ, zero, suc, Bool, false, not, ◌&&◌, ◌||◌, if◌then◌else◌, String, Option, none, some, str_eq,
  List, [], ◌∷◌, ◌++◌, ℤ, pos, ◌+ℤ◌, ltb_ℤ, negsuc,
}
use erdai_agent.Core.{Stamp, Result, ok, err, not_found, failed}

-- `pointsIdentity`
pub record Identity : Type 0 where
  pub transport : String
  pub transport_instance : String
  pub sender_ref : String

abbrev pub same_identity : Identity → Identity → Bool
same_identity a b =
    str_eq a.transport b.transport
    && str_eq a.transport_instance b.transport_instance
    && str_eq a.sender_ref b.sender_ref

-- `agent_points_accounts`; an empty `merged_into` marks an account that stands for itself
pub record Account : Type 0 where
  pub id : String
  pub merged_into : String
  pub updated_at : Stamp

-- `agent_points_identities`
pub record IdentityRow : Type 0 where
  pub identity : Identity
  pub account_id : String

pub data EntryKind : Type 0 where
  check_in redemption adjustment : EntryKind

-- `agent_points_ledger`
pub record Entry : Type 0 where
  pub id : String
  pub identity : Identity
  pub kind : EntryKind
  pub points : ℤ
  pub reference_key : String
  pub note : String
  pub created_at : Stamp

-- `agent_points_checkins`
pub record CheckInRow : Type 0 where
  pub account_id : String
  pub day : String

-- `agent_points_account_merges`
pub record MergeRow : Type 0 where
  pub source_account_id : String
  pub target_account_id : String
  pub evidence : String

-- `agent_points_identity_links`
pub record LinkRow : Type 0 where
  pub identity : Identity
  pub account_id : String
  pub evidence : String

pub data OrderKind : Type 0 where
  redeem lottery : OrderKind

pub data OrderStatus : Type 0 where
  reserved committed refunded : OrderStatus

-- `agent_points_orders`
pub record Order : Type 0 where
  pub id : String
  pub account_id : String
  pub source : String
  pub external_ref : String
  pub kind : OrderKind
  pub points : ℕ
  pub status : OrderStatus
  pub note : String
  pub resolution_note : String
  pub identity : Identity
  pub created_at : Stamp
  pub updated_at : Stamp

-- `agent_affiliate_owners`, which the merge reads
pub record OwnerRow : Type 0 where
  pub affiliate_code : String
  pub identity : Identity

pub record Db : Type 0 where
  pub accounts : List Account
  pub identities : List IdentityRow
  pub entries : List Entry
  pub checkins : List CheckInRow
  pub orders : List Order
  pub merges : List MergeRow
  pub links : List LinkRow
  pub owners : List OwnerRow

-- SELECT account_id FROM agent_points_identities WHERE …, on the primary key
unfoldable pub account_of : Identity → List IdentityRow → Option String
account_of i [] = none
account_of i (r ∷ rs) = if same_identity r.identity i then some r.account_id else account_of i rs

unfoldable pub find_account : String → List Account → Option Account
find_account id [] = none
find_account id (a ∷ as') = if str_eq a.id id then some a else find_account id as'

-- `pointsCanonicalAccount`: the loop `for range 64`
unfoldable pub follow : ℕ → String → List Account → Result String
follow zero id rows = err (failed "points account merge cycle")
follow (suc n) id rows = elim (find_account id rows) [
  | none ↦ err (not_found "points_account_not_found")
  | some a ↦ if str_eq a.merged_into "" then ok id else follow n a.merged_into rows
]

unfoldable pub canonical : Db → String → Result String
canonical db id = follow 64 id db.accounts

-- the row of the JOIN belongs to the account
abbrev pub is_account : Option String → String → Bool
is_account none id = false
is_account (some a) id = str_eq a id

abbrev pub belongs : List IdentityRow → String → Entry → Bool
belongs rows id x = is_account (account_of x.identity rows) id

-- the sum over the ledger's rows of an account
unfoldable pub total : List IdentityRow → String → List Entry → ℤ
total rows id [] = pos 0
total rows id (x ∷ xs) =
    let rest = total rows id xs in if belongs rows id x then x.points +ℤ rest else rest

abbrev pub max_int64 : ℕ
max_int64 = 9_223_372_036_854_775_807

abbrev pub fits_int64 : ℤ → Bool
fits_int64 n = not (ltb_ℤ (pos max_int64) n) && not (ltb_ℤ n (negsuc max_int64))

-- SUM over integers fails where a partial sum leaves the 64 bits
unfoldable pub sum_int64 : List IdentityRow → String → ℤ → List Entry → Result ℤ
sum_int64 rows id acc [] = ok acc
sum_int64 rows id acc (x ∷ xs) =
    let acc' = if belongs rows id x then acc +ℤ x.points else acc in
    let rest = sum_int64 rows id acc' xs in
    if fits_int64 acc' then rest else err (failed "integer overflow")

-- `pointsBalance`
unfoldable pub balance : Db → String → Result ℤ
unfolding sum_int64
balance db id = sum_int64 db.identities id (pos 0) db.entries

-- INSERT INTO agent_points_ledger: the primary key, and one reference key for an identity. CHECK
-- (points <> 0) is left out: an award, a debit and a credit are of at least one point.
unfoldable pub entry_clash : Entry → List Entry → Bool
entry_clash x [] = false
entry_clash x (y ∷ ys) =
    str_eq y.id x.id
    || (same_identity y.identity x.identity && str_eq y.reference_key x.reference_key)
    || entry_clash x ys

unfoldable pub insert_entry : Entry → Db → Result Db
insert_entry x db =
    if entry_clash x db.entries
    then err (failed "UNIQUE constraint failed: agent_points_ledger")
    else ok (record db { entries = db.entries ++ x ∷ [] })

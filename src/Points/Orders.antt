-- ===== src/Points/Orders.antt =====
-- `reservePointsOrder` and `resolvePointsOrder` of go/points_orders.go: an order debits the ledger when
-- it is reserved, and credits it back when it is refunded.
use Prim.Native.String.{len, ◌++◌ as concat}
use erdai_agent.Prelude.{
  ℕ, Bool, true, false, not, ◌&&◌, ◌||◌, if◌then◌else◌, String, Option, none, some, str_eq, List,
  [], ◌∷◌, ◌++◌, ltb, ◌==◌, ℤ, pos, neg, ltb_ℤ, text_lt, pos_part,
}
use erdai_agent.Core.{
  Env, now_stamp, Result, ok, err, ◌>>=◌, ◌>>◌, guard, or_fail, invalid, not_found, conflict,
  failed,
}
use erdai_agent.Text.{trim_space}
use erdai_agent.Points.Store.{
  Identity, IdentityRow, Entry, redemption, adjustment, OrderKind, redeem, lottery, OrderStatus,
  reserved, committed, refunded, Order, Db, canonical, balance, insert_entry,
}
use erdai_agent.Points.Accounts.{touch}

-- the input of `reservePointsOrder`; the kind is a text there
pub record OrderInput : Type 0 where
  pub account_id : String
  pub source : String
  pub external_ref : String
  pub kind : String
  pub points : ℤ
  pub note : String

unfoldable pub parse_kind : String → Option OrderKind
parse_kind k =
    if str_eq k "redemption" then some redeem else if str_eq k "lottery" then some lottery else none

-- points of 1 to 1,000,000,000
unfoldable pub parse_points : ℤ → Option ℕ
parse_points p = if ltb_ℤ p (pos 1) || ltb_ℤ (pos 1_000_000_000) p then none else some (pos_part p)

-- the input after trimming and its checks
pub record Reservation : Type 0 where
  pub account_id : String
  pub source : String
  pub external_ref : String
  pub kind : OrderKind
  pub points : ℕ
  pub note : String

unfoldable pub check_order : OrderInput → Result Reservation
check_order input =
    let source = trim_space input.source in
    let external_ref = trim_space input.external_ref in
    let note = trim_space input.note in
    let bad = invalid "账户、业务来源、唯一订单号、交易类型、积分和说明为必填项；单笔积分须为 1..1000000000" in
    do
      guard
          (not (
            str_eq input.account_id ""
            || str_eq source ""
            || ltb 80 (len source)
            || str_eq external_ref ""
            || ltb 160 (len external_ref)
            || str_eq note ""
            || ltb 1000 (len note)))
          bad
      kind ← or_fail (parse_kind input.kind) bad
      points ← or_fail (parse_points input.points) bad
      ok (record {
        account_id = input.account_id;
        source = source;
        external_ref = external_ref;
        kind = kind;
        points = points;
        note = note;
      })

-- WHERE source = ? AND external_ref = ?
unfoldable pub find_order : String → String → List Order → Option Order
find_order source ref [] = none
find_order source ref (o ∷ os) =
    if str_eq o.source source && str_eq o.external_ref ref then some o else find_order source ref os

abbrev pub same_kind : OrderKind → OrderKind → Bool
same_kind redeem redeem = true
same_kind lottery lottery = true
same_kind _ _ = false

-- an existing order of the same reference must be the same transaction
abbrev pub same_order : Order → String → Reservation → Bool
same_order o account r =
    str_eq o.account_id account
    && same_kind o.kind r.kind
    && o.points == r.points
    && str_eq o.note r.note

abbrev pub identity_lt : Identity → Identity → Bool
identity_lt a b =
    text_lt a.transport b.transport
    || (not (text_lt b.transport a.transport)
        && (text_lt a.transport_instance b.transport_instance
            || (not (text_lt b.transport_instance a.transport_instance)
                && text_lt a.sender_ref b.sender_ref)))

abbrev pub least : Identity → Option Identity → Option Identity
least i none = some i
least i (some k) = if identity_lt k i then some k else some i

-- the first identity of the account, ORDER BY its three columns
unfoldable pub first_identity : String → List IdentityRow → Option Identity
first_identity id [] = none
first_identity id (r ∷ rs) =
    let rest = first_identity id rs in
    if str_eq r.account_id id then least r.identity rest else rest

abbrev pub debit_entry : Env → String → Identity → Reservation → Entry
debit_entry e id i r = record {
  id = concat id "_debit";
  identity = i;
  kind = redemption;
  points = neg (pos r.points);
  reference_key = concat "order:" (concat id ":debit");
  note = r.note;
  created_at = now_stamp e;
}

abbrev pub order_row : Env → String → String → Identity → Reservation → Order
order_row e id account i r = record {
  id = id;
  account_id = account;
  source = r.source;
  external_ref = r.external_ref;
  kind = r.kind;
  points = r.points;
  status = reserved;
  note = r.note;
  resolution_note = "";
  identity = i;
  created_at = now_stamp e;
  updated_at = now_stamp e;
}

unfoldable pub find_by_id : String → List Order → Option Order
find_by_id id [] = none
find_by_id id (o ∷ os) = if str_eq o.id id then some o else find_by_id id os

-- INSERT INTO agent_points_orders: the primary key; the reference was looked up before
unfoldable pub insert_order : Order → Db → Result Db
insert_order o db = elim (find_by_id o.id db.orders) [
  | some k ↦ err (failed "UNIQUE constraint failed: agent_points_orders.id")
  | none ↦ ok (record db { orders = db.orders ++ o ∷ [] })
]

-- a new order, once no order has its reference
unfoldable pub place_order : Env → Db → String → Reservation → Result (Db × Order)
place_order e db account r = do
  available ← balance db account
  guard (not (ltb_ℤ available (pos r.points))) (conflict "insufficient_points")
  i ← or_fail (first_identity account db.identities) (failed "sql: no rows in result set")
  id ← or_fail e.new_id (failed "random identifier")
  db₁ ← insert_order (order_row e id account i r) db
  db₂ ← insert_entry (debit_entry e id i r) db₁
  ok (db₂, order_row e id account i r)

unfoldable pub reserve_in : Env → Db → Reservation → Result (Db × Order)
reserve_in e db r = do
  let db' = record db { accounts = touch e r.account_id db.accounts }
  account ← canonical db' r.account_id
  elim (find_order r.source r.external_ref db'.orders) [
    | some o ↦
        if same_order o account r then ok (db, o) else err (conflict "points_idempotency_conflict")
    | none ↦ place_order e db' account r
  ]

unfoldable pub reserve_order : Env → Db → OrderInput → Result (Db × Order)
reserve_order e db input = check_order input >>= λ r. reserve_in e db r

abbrev pub same_status : OrderStatus → OrderStatus → Bool
same_status reserved reserved = true
same_status committed committed = true
same_status refunded refunded = true
same_status _ _ = false

-- the target status, given as a text
unfoldable pub parse_resolution : String → Option OrderStatus
parse_resolution s =
    if str_eq s "committed"
    then some committed
    else if str_eq s "refunded"
    then some refunded
    else none

abbrev pub refund_entry : Env → Order → String → Entry
refund_entry e o note = record {
  id = concat o.id "_refund";
  identity = o.identity;
  kind = adjustment;
  points = pos o.points;
  reference_key = concat "order:" (concat o.id ":refund");
  note = trim_space note;
  created_at = now_stamp e;
}

abbrev pub resolved_row : Env → OrderStatus → String → Order → Order
resolved_row e status note o = record o {
  status = status;
  resolution_note = trim_space note;
  updated_at = now_stamp e;
}

unfoldable pub update_order : String → (Order → Order) → List Order → List Order
update_order id f [] = []
update_order id f (o ∷ os) = (if str_eq o.id id then f o else o) ∷ update_order id f os

-- the credit of a refund; the balance is read to see that it fits
unfoldable pub credit : Env → Db → OrderStatus → Order → String → Result Db
credit e db refunded o note = do
  db' ← insert_entry (refund_entry e o note) db
  sum ← balance db' o.account_id
  ok db'
credit e db status o note = ok db

unfoldable pub resolve_in : Env → Db → String → OrderStatus → String → Result (Db × Order)
resolve_in e db id status note = do
  o ← or_fail (find_by_id id db.orders) (not_found "积分订单不存在")
  if same_status o.status status
      then ok (db, o)
      else if not (same_status o.status reserved)
      then err (conflict "points_order_finalized")
      else (credit e db status o note >>= λ db'. ok (
        record db' { orders = update_order id (resolved_row e status note) db'.orders },
        resolved_row e status note o,
      ))

unfoldable pub resolve_order : Env → Db → String → String → String → Result (Db × Order)
resolve_order e db id status note = do
  s ← or_fail (parse_resolution status) (invalid "交易状态及处理凭据为必填项")
  guard (not (str_eq (trim_space note) "" || ltb 1000 (len note))) (invalid "交易状态及处理凭据为必填项")
  resolve_in e db id s note

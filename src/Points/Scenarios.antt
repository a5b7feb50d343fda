-- ===== src/Points/Scenarios.antt =====
-- Runs of the points of go/points_accounts.go and go/points_orders.go on concrete tables.
use erdai_agent.Prelude.{
  ℤ, Bool, true, false, ℕ, true, false, String, none, some, ◌≡◌, refl, [], ◌∷◌, pos, neg, ◌+ℤ◌,
  ◌≤ℤ◌, ◌⊎◌, str_eq,
}
use erdai_agent.Core.{Env, stamp, Result, ok, err}
use erdai_agent.Text.{trim_space}
use erdai_agent.Points.Store.{
  Identity, Account, Entry, adjustment, redeem, Order, reserved, committed, refunded, Db,
  account_of, find_account, follow, canonical, sum_int64, balance, entry_clash, insert_entry,
}
use erdai_agent.Points.Accounts.{touch, scope, ensure_identity, add_account, add_identity}
use erdai_agent.Points.CheckIn.{daily_check_in, award, check_in_points}
use erdai_agent.Points.History.{
  PointsReach, opens, then_step, checks_in, reserves, empty_db, PointsReach-solvent,
}
use erdai_agent.Points.Merge.{
  merge_accounts, has_checkin, put_checkin, merge_into, merge_rows, merge_input, merged_before,
  owner_codes, copy_checkins, move_identities, move_orders, move_accounts,
}
use erdai_agent.Points.Orders.{
  OrderInput, Reservation, check_order, parse_kind, parse_points, find_order, first_identity,
  find_by_id, insert_order, place_order, reserve_in, reserve_order, parse_resolution, credit,
  update_order, resolve_in, resolve_order,
}
use erdai_agent.Points.Conserve.{points_of, touched, merge_conserves}
use erdai_agent.Points.Settle.{resolve_settles, resolve_final, refund_part}
use erdai_agent.Points.Reserve.{reserve_takes, taken}

abbrev pub env : ℕ → Env
env t = record {
  now = t;
  format_time = λ n. "2026-11-26T00:00:00Z";
  parse_time = λ s. none;
  new_id = some "o1";
  aead = true;
  encrypt = λ goal. some goal;
  lower = λ s. s;
}

abbrev pub ana : Identity
ana = record { transport = "onebot"; transport_instance = "1"; sender_ref = "7" }

abbrev pub bea : Identity
bea = record { transport = "newapi"; transport_instance = "2"; sender_ref = "8" }

abbrev account : String → Account
account id = record { id = id; merged_into = ""; updated_at = stamp (env 1) 1 }

abbrev grant : String → Identity → ℕ → Entry
grant id i n = record {
  id = id;
  identity = i;
  kind = adjustment;
  points = pos n;
  reference_key = id;
  note = "";
  created_at = stamp (env 1) 1;
}

abbrev pub two_accounts : Db
two_accounts = record {
  accounts = account "a" ∷ account "b" ∷ [];
  identities =
      record { identity = ana; account_id = "a" }
      ∷ record { identity = bea; account_id = "b" }
      ∷ [];
  entries = grant "g1" ana 30 ∷ grant "g2" bea 12 ∷ [];
  checkins = [];
  orders = [];
  merges = [];
  links = [];
  owners = [];
}

abbrev order_input : OrderInput
order_input = record {
  account_id = "a";
  source = "shop";
  external_ref = "r1";
  kind = "redemption";
  points = pos 20;
  note = "cup";
}

abbrev db_of {ℓ} : {A : Type ℓ} → Result (Db × A) → Db
db_of (ok (db, a)) = db
db_of (err x) = two_accounts

abbrev no_order : Order
no_order = record {
  id = "";
  account_id = "";
  source = "";
  external_ref = "";
  kind = redeem;
  points = 0;
  status = reserved;
  note = "";
  resolution_note = "";
  identity = ana;
  created_at = stamp (env 1) 1;
  updated_at = stamp (env 1) 1;
}

abbrev order_of : Result (Db × Order) → Order
order_of (ok (db, o)) = o
order_of (err x) = no_order

abbrev merging : Result (Db × String)
merging = merge_accounts (env 5) two_accounts "b" "a" "same person"

merging_eq : merging ≡ ok (db_of merging, "a")
unfolding merge_accounts merge_into merge_rows merge_input merged_before owner_codes canonical
    follow find_account touch balance sum_int64 account_of move_identities move_orders move_accounts
    copy_checkins trim_space ◌+ℤ◌
merging_eq = refl

merge_conserves_example :
    ((canonical (touched (env 5) "a" two_accounts) "b" ≡ ok "a")
      × (canonical (touched (env 5) "a" two_accounts) "a" ≡ ok "a")
      × (db_of merging ≡ two_accounts))
    ⊎ ((canonical (touched (env 5) "a" two_accounts) "b" ≡ ok "b")
        × (canonical (touched (env 5) "a" two_accounts) "a" ≡ ok "a")
        × (str_eq "b" "a" ≡ false)
        × (points_of (db_of merging) "a" ≡ points_of two_accounts "a" +ℤ points_of two_accounts "b")
        × (points_of (db_of merging) "b" ≡ pos 0)
        × ((other : String)
            → str_eq "b" other ≡ false
            → str_eq "a" other ≡ false
            → points_of (db_of merging) other ≡ points_of two_accounts other)
        × ((db_of merging).entries ≡ two_accounts.entries))
merge_conserves_example = merge_conserves (env 5) two_accounts "b" "a" "same person" merging_eq

abbrev reserving : Result (Db × Order)
reserving = reserve_order (env 5) two_accounts order_input

reserving_eq : reserving ≡ ok (db_of reserving, order_of reserving)
unfolding reserve_order reserve_in place_order check_order parse_kind parse_points canonical follow
    find_account touch find_order balance sum_int64 account_of first_identity insert_order
    find_by_id insert_entry entry_clash trim_space ◌+ℤ◌ neg
reserving_eq = refl

abbrev refunding : Result (Db × Order)
refunding = resolve_order (env 6) (db_of reserving) "o1" "refunded" "sold out"

refunding_eq : refunding ≡ ok (db_of refunding, order_of refunding)
unfolding resolve_order resolve_in parse_resolution find_by_id credit insert_entry entry_clash
    balance sum_int64 update_order reserve_order reserve_in place_order check_order parse_kind
    parse_points canonical follow find_account touch find_order account_of first_identity
    insert_order trim_space ◌+ℤ◌ neg
refunding_eq = refl

abbrev again : Result (Db × Order)
again = resolve_order (env 7) (db_of refunding) "o1" "refunded" "again"

again_eq : again ≡ ok (db_of again, order_of again)
unfolding resolve_order resolve_in parse_resolution find_by_id credit insert_entry entry_clash
    balance sum_int64 update_order reserve_order reserve_in place_order check_order parse_kind
    parse_points canonical follow find_account touch find_order account_of first_identity
    insert_order trim_space ◌+ℤ◌ neg
again_eq = refl

resolve_final_example : db_of again ≡ db_of refunding
resolve_final_example =
    resolve_final (env 6) (env 7) (db_of reserving) "o1" "refunded" "refunded" "sold out" "again"
      refunding_eq again_eq

resolve_settles_example :
    (o₀ : Order) × (find_by_id "o1" (db_of reserving).orders ≡ some o₀)
    × (((db_of refunding ≡ db_of reserving)
          × (order_of refunding ≡ o₀)
          × (parse_resolution "refunded" ≡ some o₀.status))
        ⊎ ((o₀.status ≡ reserved)
            × ((order_of refunding).status ≡ committed)
            × ((acc : String) → points_of (db_of refunding) acc ≡ points_of (db_of reserving) acc))
        ⊎ ((o₀.status ≡ reserved)
            × ((order_of refunding).status ≡ refunded)
            × ((acc : String)
                → points_of (db_of refunding) acc
                  ≡ points_of (db_of reserving) acc
                    +ℤ refund_part (db_of reserving).identities acc o₀)))
resolve_settles_example =
    resolve_settles (env 6) (db_of reserving) "o1" "refunded" "sold out" refunding_eq

reserve_takes_example :
    (r : Reservation) × (check_order order_input ≡ ok r)
    × (((db_of reserving ≡ two_accounts)
          × (find_order r.source r.external_ref two_accounts.orders ≡ some (order_of reserving)))
        ⊎ ((find_order r.source r.external_ref two_accounts.orders ≡ none)
            × ((order_of reserving).points ≡ r.points)
            × (pos (order_of reserving).points
                ≤ℤ points_of two_accounts (order_of reserving).account_id)
            × ((acc : String)
                → points_of (db_of reserving) acc
                  ≡ points_of two_accounts acc +ℤ taken (order_of reserving) acc)))
reserve_takes_example =
    reserve_takes (env 5) two_accounts order_input ((refl, tt), (tt, tt)) reserving_eq

abbrev checking : Result (Db × Bool × ℤ)
checking = daily_check_in (λ i. "a") (env 5) (empty_db []) ana (pos 25) "2026-11-26"

abbrev checked_db : Result (Db × Bool × ℤ) → Db
checked_db (ok (db, b, n)) = db
checked_db (err x) = two_accounts

abbrev sum_of : Result (Db × Bool × ℤ) → ℤ
sum_of (ok (db, b, n)) = n
sum_of (err x) = pos 0

checking_eq : checking ≡ ok (checked_db checking, true, sum_of checking)
unfolding daily_check_in scope ensure_identity add_account add_identity account_of find_account
    has_checkin put_checkin award check_in_points insert_entry entry_clash balance sum_int64
    trim_space ◌+ℤ◌
checking_eq = refl

abbrev spending : Result (Db × Order)
spending = reserve_order (env 6) (checked_db checking) order_input

spending_eq : spending ≡ ok (db_of spending, order_of spending)
unfolding reserve_order reserve_in place_order check_order parse_kind parse_points canonical follow
    find_account touch find_order balance sum_int64 account_of first_identity insert_order
    find_by_id insert_entry entry_clash trim_space ◌+ℤ◌ neg daily_check_in scope ensure_identity
    add_account add_identity has_checkin put_checkin award check_in_points
spending_eq = refl

history : PointsReach (db_of spending)
history =
    then_step
      (then_step (opens [])
        (checks_in (λ i. "a") (env 5) ana (pos 25) "2026-11-26" true (sum_of checking) checking_eq))
      (reserves (env 6) order_input (order_of spending) spending_eq)

PointsReach-solvent_example : pos 0 ≤ℤ points_of (db_of spending) "a"
PointsReach-solvent_example = PointsReach-solvent history "a"

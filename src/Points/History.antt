-- ===== src/Points/History.antt =====
-- The histories of the points tables: check-ins, invitation credits, links, merges, reservations and resolutions, of
-- go/affiliate_commands.go, go/points_accounts.go and go/points_orders.go, in any order.
use erdai_agent.Prelude.{Bool, String, ◌≡◌, List, [], ℤ, pos, ◌≤ℤ◌, int_laws, subst, sym}
use erdai_agent.Core.{Env, ok}
use erdai_agent.Points.Store.{Identity, Order, Db, total, OwnerRow}
use erdai_agent.Points.Accounts.{link_identity}
use erdai_agent.Points.Merge.{merge_accounts}
use erdai_agent.Points.Orders.{OrderInput, reserve_order, resolve_order}
use erdai_agent.Points.CheckIn.{daily_check_in}
use erdai_agent.Points.Invite.{credit_invite_points}
use erdai_agent.Points.InviteInv.{credit_invite_points-Inv}
use erdai_agent.Points.Conserve.{points_of}
use erdai_agent.Points.Solvent.{Inv}
use erdai_agent.Points.Entries.{daily_check_in-Inv, link_identity-Inv, merge_accounts-Inv}
use erdai_agent.Points.OrderInv.{reserve_order-Inv, resolve_order-Inv}

pub data PointsStep (db db' : Db) : Type 0 where
  checks_in :
      (initial : Identity → String) (e : Env) (i : Identity) (policy : ℤ) (date : String)
      (awarded : Bool) (sum : ℤ)
      → daily_check_in initial e db i policy date ≡ ok (db', awarded, sum)
      → PointsStep db db'
  credits :
      (initial : Identity → String) (upper : String → String) (e : Env) (bindings : List OwnerRow)
      (i : Identity) (code : String) (paid policy : ℤ)
      → db' ≡ (credit_invite_points initial upper e db bindings i code paid policy).0
      → PointsStep db db'
  links :
      (e : Env) (account : String) (i : Identity) (evidence to : String)
      → link_identity e db account i evidence ≡ ok (db', to)
      → PointsStep db db'
  merges :
      (e : Env) (source target evidence to : String)
      → merge_accounts e db source target evidence ≡ ok (db', to)
      → PointsStep db db'
  reserves :
      (e : Env) (input : OrderInput) (o : Order)
      → reserve_order e db input ≡ ok (db', o)
      → PointsStep db db'
  resolves :
      (e : Env) (id status note : String) (o : Order)
      → resolve_order e db id status note ≡ ok (db', o)
      → PointsStep db db'

-- the tables of a new installation; the owners are verified elsewhere
abbrev pub empty_db : List OwnerRow → Db
empty_db owners = record {
  accounts = [];
  identities = [];
  entries = [];
  checkins = [];
  orders = [];
  merges = [];
  links = [];
  owners = owners;
}

pub data PointsReach : Db → Type 0 where
  opens : (owners : List OwnerRow) → PointsReach (empty_db owners)
  then_step : {db db' : Db} → PointsReach db → PointsStep db db' → PointsReach db'

PointsStep-Inv : {db db' : Db} → PointsStep db db' → Inv db → Inv db'
PointsStep-Inv {db} (checks_in initial e i policy date awarded sum h) v =
    daily_check_in-Inv initial e db i policy date {r = (awarded, sum)} h v
PointsStep-Inv {db} (credits initial upper e bindings i code paid policy h) v =
    subst Inv (sym h) (credit_invite_points-Inv initial upper e db bindings i code paid policy v)
PointsStep-Inv {db} (links e account i evidence to h) v =
    link_identity-Inv e db account i evidence h v
PointsStep-Inv {db} (merges e source target evidence to h) v =
    merge_accounts-Inv e db source target evidence h v
PointsStep-Inv {db} (reserves e input o h) v = reserve_order-Inv e db input h v
PointsStep-Inv {db} (resolves e id status note o h) v = resolve_order-Inv e db id status note h v

empty-Inv : (owners : List OwnerRow) → Inv (empty_db owners)
unfolding total
empty-Inv owners = record { keyed = tt; entered = tt; ordered = tt; solvent = λ id. omega int_laws }

PointsReach-Inv : {db : Db} → PointsReach db → Inv db
PointsReach-Inv (opens owners) = empty-Inv owners
PointsReach-Inv (then_step r s) = PointsStep-Inv s (PointsReach-Inv r)

-- In every history of check-ins, invitation credits, links, merges, reservations and resolutions, in any order and by
-- anyone, no account has a negative balance.
pub PointsReach-solvent : {db : Db} → PointsReach db → (id : String) → pos 0 ≤ℤ points_of db id
PointsReach-solvent r id = (PointsReach-Inv r).solvent id

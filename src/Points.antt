-- ===== src/Points.antt =====
-- The points of go/points_accounts.go, go/points_orders.go and go/affiliate_commands.go: accounts
-- that several platform identities share, a ledger of signed entries, and orders that reserve points.
pub mod Store
pub mod Accounts
pub mod Merge
pub mod Orders
pub mod Decimal
pub mod Invite
pub mod Mark
pub mod Paid
pub mod InviteInv
pub mod CheckIn
pub mod Totals
pub mod Conserve
pub mod Settle
pub mod Reserve
pub mod Solvent
pub mod Scenarios
pub mod InviteScenarios
pub mod Entries
pub mod OrderInv
pub mod History

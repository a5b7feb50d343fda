-- ===== src/Lib.antt =====
-- A verification library for the Go runtime of this repository (go/): models of its subsystems as
-- executable functions on the tables that they keep, and theorems on these functions.
--
-- Prelude and Text hold shared names, lemmas and the functions of Go's `strings` that the models
-- use. Core holds the errors, the chain of fallible steps, the environment of a call and
-- `normalizeCoreText` of go/config_store.go. A call reads the world through a record `Env`: the
-- clock, the format of times, the next random identifier, the cipher and `strings.ToLower` are
-- parameters of every theorem, none of which assumes more of them than its statement says. A stored
-- time has its text and its instant, which is what `julianday` reads of the text: the models
-- compare instants where the SQL compares `julianday`, and texts where it orders by the column.
--
-- Jobs models the durable jobs of go/durable_jobs.go. Jobs.Store has the tables `durable_jobs`,
-- `durable_job_events` and `durable_job_results` as lists; an UPDATE is `update_where` on a test and
-- a function of the row, and the rows affected are `count_where`. Jobs.Status is the table of
-- moves, Jobs.Goal what the text of a goal decides, Jobs.Create `createDurableJob`, Jobs.Manage
-- `transitionDurableJob` and `updateDurableJobGoal`, Jobs.Worker `claimDurableJob`,
-- `setDurableJobRunning` and a tick of `heartbeatDurableJob`, Jobs.Finish `finishDurableJob`, and
-- Jobs.Reconcile `reconcileDurableJobs`. Jobs.WorkerLoop composes them to `runOneDurableJob`, with the row
-- of `agent_runs` and around a run that is a parameter, and to the loop of the worker; Jobs.Command has
-- the chat commands of go/status_commands.go and `handleDurableJobDirectCommand`. Jobs.Steps makes each operation a step of a history. The
-- other files prove: Rows, Effects and Gate what an operation does to a row, Identity, Log,
-- Fence, Expired, Unclaimed, Settled, Again, Claim, Rounds, Recurring, Owned, Liveness and Drained the
-- results below; Only, Statements and Moved follow one row through the statements of a round. A time of
-- the table is compared as an exact instant, where SQLite's `julianday` rounds to milliseconds.
--
-- Points models go/points_accounts.go, go/points_orders.go, and the check-in and the invitation
-- credits of go/affiliate_commands.go. Points.Store has the tables and the balance, which SQLite computes as a
-- sum over a join; a sum that leaves 64 bits is an error. Points.Accounts has
-- `ensurePointsIdentity` and `linkPointsIdentity`, Points.Merge `mergePointsAccounts`, Points.Orders
-- `reservePointsOrder` and `resolvePointsOrder`, Points.CheckIn `recordDailyCheckIn`, Points.Invite
-- `creditInvitePoints`, whose mark is read out of decimal numbers (Points.Decimal). A chain of
-- merges is followed for 64 steps, as the code does, and is an error after them. Points.History makes
-- each operation a step of a history; Totals, Conserve, Reserve, Settle, Solvent, Entries, OrderInv,
-- Mark, Paid and InviteInv prove.
--
-- Quota models go/media_quota.go: Quota.Policy has `updatePolicy` and `exempts`, Quota.Usage the
-- reservations, Quota.Media `executeQuotaMedia` around a media call that is a parameter. The day in
-- Shanghai and the keyed digest of a subject are parameters too. Limits, Counts and Cost prove.
--
-- Tasks models go/task_graph.go: Tasks.Store has the receipts, Tasks.Operation their identity and the
-- statements on them, Tasks.Call `executePersistentToolCall`. The tool is a parameter, and so are
-- JSON, the cipher, the digest and the two checks of go/task_intent.go that stand before a call.
-- Tasks.Persistent has `executePersistentOperation`, Tasks.Checkpoint the checkpoints of
-- go/task_model_checkpoint.go. Rows, Checks, Once, Reuse, Restored and Resumed prove.
--
-- Scope models go/runtime_scope.go: Scope.Keys the normalized scope and its keys, which are lists of
-- bytes, Scope.Parts `relationshipPlatformSenderRef`, Scope.Decimal the decimal numbers of both.
-- RoundTrip and Isolation prove. A length is below 2 ^ 63, as in Go.
--
-- Health models `recordProviderHealth` of go/provider_health.go. Samples has the histories of checks;
-- the deletion of samples after fourteen days is not modelled.
--
-- Replies models go/reply_segmentation.go: Replies.Segments has `splitReplyText`, Lossless and Few
-- prove. Text.Ink is the text without its spaces, which a trim keeps.
--
-- Knowledge models the cut of a document in go/rag_runtime.go (Knowledge.Chunks), with the size and the
-- overlap that go/vector_search.go allows. Its loop runs on fuel, a round for each rune, which is enough
-- since each round goes forward. Cover and Namespaces prove.
--
-- Intents models go/task_intent.go: Intents.Store the tables and `ensureTaskCurrentQuery`, Intents.Prior
-- the query for the task that a message is about, Intents.Changes the statements, Intents.Admit
-- `admitTaskIntentTx`. Superseded proves, with Rows, Kept and Revised. The action that
-- `taskIntentAction` reads from the words of a message is an argument. A revision is below 2 ^ 63.
--
-- Search models the receipts of web searches: Search.Store the tables, Search.Research `beginSearchRun`,
-- `finishSearchRunSuccess`, `finishSearchRunFailure` and the receipts around the search of
-- go/tool_runtime.go, Search.Recover `recoverInterruptedRuntime` of go/runtime_recovery.go and
-- `retryTask` of go/task_graph.go, Search.Steps their histories. Cached, Budget and Again prove, with
-- Rows and Kept. That the row of `agent_runs` of a search is there is left to the caller.
--
-- Wechat models the padding and the frame of the plaintext in go/wechat_crypto.go, without the block
-- cipher around it.
--
-- A transaction is one step: what a failing database does is not modelled, since the transaction is
-- rolled back then. Goroutines, HTTP handlers and the text of most replies are not modelled; a ticker
-- is a list of times.
pub mod Prelude
pub mod Text
pub mod Core
pub mod Jobs
pub mod Points
pub mod Quota
pub mod Health
pub mod Scope
pub mod Replies
pub mod Knowledge
pub mod Tasks
pub mod Intents
pub mod Search
pub mod Wechat

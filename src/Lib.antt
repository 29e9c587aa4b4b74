-- ===== src/Lib.antt =====
-- The settlement core of Mergepay's API, modelled and verified.
--
-- Mergepay keeps the shared expenses of a group and settles its balances by Stellar payments. An
-- amount is a decimal text at the API and in the database, and a bigint of stroops (1 unit is
-- 10^7 stroops) wherever it is computed with. The parts that are modelled here, and how they use
-- each other:
--
-- * Money is src/lib/money.ts and src/services/money.ts: validation of decimals and the
--   conversion between decimals and stroops. Money.Decimal has the string operations (trim, the
--   decimal pattern, split, BigInt and toString on digits), Money.Amount the unsigned amounts of
--   lib/money.ts, Money.Service the signed ones of services/money.ts. Money.Digits,
--   Money.RoundTrip, Money.Bounds and Money.Signed hold the lemmas and the round trip.
-- * Settlement is src/services/settlement.ts: computeShares (Settlement.Shares),
--   computeNetBalances (Settlement.Balances), suggestSettlements and isAllSettled
--   (Settlement.Suggest). All of them go through Money.Service. Settlement.Ledger has the
--   measures by which their inputs and outputs are compared.
-- * Expense is src/services/expense-calculation.ts: the parsers of amounts, rates and
--   percentages (Expense.Parse), allocateByWeights, convertAllocations and divideRounded
--   (Expense.Allocate), splitExpense (Expense.Split), calculateGroupExpenseBreakdown
--   (Expense.Breakdown has the assets, Expense.Group the view in a target asset and the whole;
--   their children hold the proofs).
-- * Machine is src/services/settlement-machine.ts: the statuses with the table of transitions
--   (Machine.Status) and applySettlementTransition with its guarded write (Machine.Apply).
--   Machine.Reach and Machine.Apply.Safety hold what follows.
-- * Worker is src/worker/job-retry-handler.ts: the retry loop of a worker job (Worker.Retry), on
--   as many rounds as the policy has attempts, which is what its counter allows. Worker.Bounded
--   says how often a job is attempted and which attempt decides.
-- * Modules named Loop, Order, Exact, Clears, Conserve, Safety, Reach, Live, Open, Single, Once,
--   Truth and Returns hold the proofs; Returns is for the calls that always produce a result.
-- * Session is src/services/refresh-token.ts: rotating refresh tokens (Session.Tokens) on a
--   table keyed by the hash of a token. Session.Live counts the tokens of a family that can be
--   redeemed, Session.Open the rows that have not been rotated, Session.Single has single use,
--   Session.Chain a session that is refreshed in time. It stands apart from the settlement core.
-- * Idempotency is src/services/idempotency.ts: runIdempotent with reclaim and finalize
--   (Idempotency.Run), for the row of one key and the database that the operation works on. The
--   operation, the JSON of its result and the failure of a write are parameters.
--   Idempotency.Once says when an operation runs.
-- * Status is src/services/settlement-status.ts and src/lib/time-bounds.ts: the signing window
--   of a request (Status.Window) and the status that a client polls (Status.Public), which reads
--   the statuses of Machine. Status.Truth says what a polled status promises.
-- * Treasury is src/services/treasury-signatures.ts and src/services/treasury-stellar.ts: what
--   an envelope of a treasury has to be (Treasury.Envelope), the tables (Treasury.Store),
--   createProposal (Treasury.Propose) and submitSignature (Treasury.Sign has its steps,
--   Treasury.Collect composes them). It checks amounts by Money and windows by Status.
--   Treasury.Signers is src/services/treasury-policy.ts, Treasury.Config the signer
--   configurations of src/services/treasury-validation.ts. A database transaction drops its
--   writes where it throws; what other requests commit between the reads and the writes of a
--   submission is an argument, and so is whether a transaction goes on after an insert that the
--   unique index refuses (Engine). Treasury.Policy, Distinct, Weight, Added, Submitted,
--   Persisted and Reached hold the proofs.
-- * Paging is src/lib/pagination.ts with a list that uses it, listGroupWebhooks of
--   src/services/webhook-listing.ts: cursors (Paging.Cursor), the filter, the order and the page
--   (Paging.Page). Paging.Order and Paging.Walk have the proofs; a walk runs on fuel, one page
--   more than there are rows.
-- * GroupBalances is src/services/group-balances.ts with computeNetBalancesByAsset of
--   src/services/settlement.ts: the limit of a new settlement (GroupBalances.Limit), the
--   balances and suggestions of every asset (GroupBalances.ByAsset), which go through
--   Settlement. GroupBalances.Outstanding, Grouping, Sheets and Listed hold the proofs.
-- * Common passes on the library's names and has the shared types: strings as lists of code
--   units, integers over the native naturals, insertion-ordered maps, and the result type in
--   which a thrown error is a value.
--
-- How the code is read. A function that throws returns a Result, with the error's code and
-- without its message. A JavaScript Map is an association list in insertion order. An array sort
-- is the insertion sort that the comparator determines; where the comparator is not an order
-- (suggestSettlements) it is the sort of an insertion from the left. A bigint is an integer, or
-- a natural number where the code has just checked its sign. A database is a record of tables;
-- what other transactions commit between a read and the conditional write is an argument, any
-- function on the store. Numbers of JavaScript appear as a parameter
-- (Settlement.Shares.Numbers), since only their comparison and their rounding are used.
--
-- Bounds and fuel. MAX_STROOPS is 2^63 - 1 and is written out. The loop of suggestSettlements
-- runs on fuel, as many rounds as there are debtors and creditors: every round finishes one of
-- them. `toString` on n runs on n + 1 rounds, more than n has digits.
--
-- Not modelled: the HTTP routes, Prisma and the database engine, Stellar's SDK and Horizon, the
-- anchors, webhooks, and messages of errors. BigInt of a text that is neither digits nor signed
-- digits is a SyntaxError in the model.
pub mod Common
pub mod Money
pub mod Settlement
pub mod Expense
pub mod Machine
pub mod GroupBalances
pub mod Idempotency
pub mod Paging
pub mod Session
pub mod Status
pub mod Treasury
pub mod Worker

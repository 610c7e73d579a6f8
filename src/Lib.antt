-- ===== src/Lib.antt =====
-- FlowPay's backend: a wallet service over a double-entry ledger in Postgres.
--
-- The parts, and how they interact. The ledger (backend/src/ledger) is the one way to move money:
-- `postEntry` checks the lines of an entry, locks the accounts, refuses what would overdraw a user,
-- and writes the entry, its lines and the new balances; `ensureAccount` opens accounts on first
-- use. Deposits, transfers, withdrawals and trading post entries through it, inside a transaction in
-- which they also write a row of their own and an event of the outbox (backend/src/common/outbox).
-- Conversions (backend/src/fx) and orders swap two currencies through
-- backend/src/common/trade-execution, at the rates of backend/src/rates. Transfers and conversions
-- run under idempotency keys (backend/src/common/idempotency). The outbox's publisher sends the
-- events to Kafka, and backend/src/notifications mails them.
--
-- The files:
--   Prelude (with Tests, Lists, Int, Text, Dict, Order, Rows): shared names and lemmas, the
--     integers over the native numbers, association lists, sorted sets, and tables by primary key.
--   Numbers: decimal.js and the `numeric(30,8)` columns, as the interface `Numbers`, a parameter of
--     every service. `IsExact` says what is relied on: exact sums and comparisons below 20
--     significant digits, decimal.js' default precision. Numbers/Scaled meets it with integers.
--   Exec: the exceptions, and the monad of a method: a state and a result; `transaction` takes the
--     writes of a body that throws back.
--   Db: the tables. Ids are numbers in the order of creation, as the code only compares and sorts
--     them; a numeric column is its count of 10⁻⁸; `now` is the wall clock.
--   Ledger: Validator is ledger-entry-validator.ts; Posting, Accounts and Queries are
--     ledger.service.ts. Amounts, Validated, Effect, Deltas, Lookup, Posted and Invariant are about
--     `postEntry`; Opening and Ensured about `ensureAccount`; Keys, TwoLines, Carried and Pools
--     say what entries move between the accounts of (owner, currency, kind), as services see it.
--   Users: users.service.ts. Outbox: outbox.service.ts. Config: the settings of env.schema.ts.
--   Deposits: deposits.service.ts. Withdrawals: withdrawals.service.ts.
--   Idempotency: idempotency.service.ts, one function for each query and `step` for what a request
--     does next; HashPayload is hash-payload.ts. Interleaved lets the steps of any number of requests
--     mix (Exclusion is about that); Alone and Repeated are about uninterrupted runs.
--   Transfers: transfers.service.ts; Once is about a transfer with its key.
--   Rates: rates.service.ts with both providers. Fx: fx.service.ts, on the rates' cache beside the
--     database; Priced, Converted and Once are about it.
--   Accounts: accounts.service.ts. Auth: auth.service.ts, jwt.strategy.ts and roles.guard.ts.
--   Publisher: outbox-publisher.service.ts. Notifications: notifications-consumer.service.ts.
--   TradeExecution: trade-execution.service.ts. Trading: Pair is pair.util.ts, OrderMath is
--     order-math.util.ts, Orders is orders.service.ts, Worker is orders-worker.service.ts.
--   Problems: all-exceptions.filter.ts (backend/src/common/filters), the body of an error response.
--   Backend: the calls of the services that move money, as one type. Failing, Payments, Orders and
--     Failed are about calls that throw; Keeping, Growing, Advancing, Within, Requests, Book and
--     Fills follow the tables through every method, and History puts calls in sequence.
--   Tests: runs at concrete data.
--
-- How the model reads the code. `ensureAccount` commits in a transaction of its own even when its
-- caller has one open, so a method is modelled as its reads, then the accounts that it opens, which
-- stay, then `transaction` around the rest. A row lock is a read, since the rest of a
-- transaction that holds it runs alone on that row; interleavings are sequences of whole calls.
-- Calls under `Promise.all` run in the order in which they are listed. The rate of a pair is a
-- parameter of the orders. What comes from outside is an argument: what `fetch` brings, how a send to
-- Kafka or to the mailer ends, the hashes of argon2, SHA-256 and the tokens' signatures. Loops are
-- recursion on a list; a request under a key takes six steps, which are shown to be enough. In the interleavings
-- of such requests a query may fail and a process may stop; uninterrupted runs have queries that succeed.
-- A snapshot of rates is dated after its fetch, so `fetch` brings the time that it took.
--
-- Not modelled: descriptions and metadata for display, the payload of an event beyond its
-- recipient, the texts of mails, time stamps of rows and response copies of rows; a failing query
-- outside the interleavings; refreshes of the rates that run at once; HTTP controllers, validation of transfer
-- objects, Kafka's client, migrations, logging, and the frontend, which have no logic of the ledger.
pub mod Prelude
pub mod Numbers
pub mod Exec
pub mod Db
pub mod Ledger
pub mod Config
pub mod Users
pub mod Outbox
pub mod Accounts
pub mod Auth
pub mod Publisher
pub mod Notifications
pub mod Idempotency
pub mod Deposits
pub mod Withdrawals
pub mod Rates
pub mod TradeExecution
pub mod Fx
pub mod Trading
pub mod Transfers
pub mod Problems
pub mod Backend
mod Tests

-- ===== src/Lib.antt =====
-- Verification of the order path of the MOEX T-Invest bot (src/moex_bot).
--
-- The bot computes target weights, turns them into limit orders (execution.py, build_order_intents),
-- submits each to a risk gate (risk.py, evaluate_intent), reserves it in a durable journal before the
-- network is used (execution_journal.py), follows the broker's answers through a state machine
-- (execution.py, transition_order) and, in production, attaches one native stop order to a filled
-- entry (live_protection.py).
--
-- The files:
--   Base        lists, integers, results and the state-and-error monad `Exec`; `atomic` is an SQLite
--               transaction, which a raise rolls back
--   Domain      src/moex_bot/domain.py: instruments, positions, orders
--   Portfolio   src/moex_bot/domain.py: observations, portfolio, equity
--   Config      src/moex_bot/config.py: the configuration and its validation (Config/Windows,
--               Config/Valid)
--   Geo         src/moex_bot/geo.py: the geopolitical assessment (Geo/Worst)
--   Quality     src/moex_bot/quality.py: the test of a market snapshot (Quality/Fresh)
--   Strategy    src/moex_bot/strategy.py: the selection and the weights of targets (Strategy/Selected)
--   Harness     src/moex_bot/harness.py: a run from a market snapshot to orders (Harness/Flow: the
--               confirmation by the order flow, Harness/Targets: limits on targets and exposures,
--               Harness/Loop: the loop over the orders, with Loop/Valid and Loop/Bounds;
--               Harness/Limited: a whole run)
--   Fills       src/moex_bot/backtest_fills.py: the simulated matching of a day's orders (Fills/Fair: one
--               fill, Fills/Kept: a session)
--   Money       src/moex_bot/integrations/tinvest_sandbox.py: amounts of the broker's interface
--               (Money/Round)
--   Order       src/moex_bot/execution.py: the transitions of an order (Order/Lifecycle: runs)
--   Intents     src/moex_bot/execution.py: from targets to orders (Intents/Shape, Intents/Gate)
--   Risk        src/moex_bot/risk.py: the gate (Risk/Limits: what it enforces, Risk/Exit: what it lets
--               through, Risk/Form: when it blames the order)
--   Journal     src/moex_bot/execution_journal.py: the table of order attempts (Journal/Rows: the SQL;
--               Journal/Reserve, Journal/Record: the ways out; Journal/Invariant, Journal/Safety;
--               Journal/Legacy: the import of historical orders)
--   Protection  src/moex_bot/live_protection.py: the table of protection plans (Protection/Plan,
--               Protection/Table, Protection/Parent; Protection/Once, Protection/Verified,
--               Protection/Readback), with
--               `registered_live_journal` of src/moex_bot/live_execution.py and the guarded broker of
--               src/moex_bot/supervised_execution.py
--   Live        src/moex_bot/live_execution.py: the production gate and its permission
--               (Live/Authorized), the ledger it reads (Live/Ledger), the execution of an order
--               (Live/Attempt, Live/Execute), the first enrollment (Live/Enroll), and src/moex_bot/prod_long.py:
--               the policy (Live/Policy)
--   Once        src/moex_bot/prod_long_once.py: the fences of a single-use purchase (Once/Fences)
--               and its order and protection (Once/Pair)
--   Supervised  src/moex_bot/supervised_execution.py: one entry that is waited for, cancelled if it stays
--               open, and protected once filled (Supervised/Poll,
--               Supervised/Entered, Supervised/Outcome)
--   TakeProfit  src/moex_bot/take_profit.py: the stop order is cancelled and the lot sold
--               (TakeProfit/Cleared)
--   Sandbox     src/moex_bot/sandbox_execution.py: the orders of a plan on the test account
--               (Sandbox/Batch)
--   Samples     data for the Tests modules
--
-- Conventions. A text is a number, 0 being the empty one: the code compares texts and tests them for
-- emptiness. A Decimal is a number of nanos (10^-9), an integer where its sign matters; arithmetic is
-- exact, and a quotient that is compared with a limit is multiplied out, so Decimal's 28 digits, NaN
-- and infinities are not modelled. Quantities and prices are natural numbers, so a test for a negative
-- one has no counterpart. A datetime is a number of microseconds, with a time zone or naive. A table
-- is the list of its rows, oldest first. What another program answers is a parameter or an argument: SHA-256,
-- UUIDs, the clock, the caller's `authorize`, and each answer of the broker, which may be an error.
-- Every loop runs over a list, but for the one of Supervised that waits for the entry: it takes fuel, and
-- Supervised/Poll shows how much is enough.
--
-- Not modelled: files, locks and the format of stored JSON; HTTP clients, command lines, reports and
-- monitoring; and the operators, which the manifest lists.
pub mod Base
pub mod Domain
pub mod Samples
pub mod Order
pub mod Journal
pub mod Protection
pub mod Config
pub mod Portfolio
pub mod Geo
pub mod Quality
pub mod Risk
pub mod Strategy
pub mod Harness
pub mod Fills
pub mod Money
pub mod Intents
pub mod Live
pub mod Once
pub mod Supervised
pub mod TakeProfit
pub mod Sandbox

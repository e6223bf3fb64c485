-- ===== src/Lib.antt =====
-- The prediction-market arbitrage bot: its execution stack, which decides whether a trade on Kalshi and
-- Polymarket is attempted, places its two legs, unwinds what does not match, and halts; the ledger of
-- what the trades earned; the order books from the venues' feeds; and of its research tree the registry
-- of hypotheses, the count of trials and the split of the games.
--
-- The parts, from the bottom up, each a file with its children:
--   Float        the operations of Python floats that the code uses, as an interface, with the
--                orders and the arithmetic that some theorems ask for; Float/Fixed fills it with
--                fixed-point numbers of twelve decimals, for the concrete runs.
--   Config       kalshi_arbitrage/config.py: the settings that these parts read.
--   Breaker      kalshi_arbitrage/circuit_breaker.py, CircuitBreaker: `enter` is `call` up to the
--                awaited function, `on_success` and `on_failure` what follows it. Breaker/Counting
--                has a breaker's events as steps; Breaker/Manager is CircuitBreakerManager, whose
--                dict is an association list.
--   KillSwitch   kalshi_arbitrage/execution/kill_switch.py, with the disk as a state: is the sentinel
--                there, and can it be written and removed.
--   Order        kalshi_arbitrage/execution/order_types.py.
--   Engine       kalshi_arbitrage/execution/single_leg.py, ExecutionEngine. Its `World` is all that
--                an order changes: the kill switch and its disk, the breakers of the process, the
--                state behind the venue gateways, and the delays slept.
--   Executor     kalshi_arbitrage/arbitrage_executor.py, ArbitrageExecutor. Executor/Gates has the
--                pre-flight checks, Legs the two orders, Hedge the unwind, and Run the whole trade.
--                Its `Desk` is the world of the engine with the executor's own fields.
--   Operator     kalshi_arbitrage/execution/operator.py, OperatorControls.
--   LiveLock     kalshi_arbitrage/execution/live_lock.py, LiveTradingLock.
--   Gateways     kalshi_arbitrage/execution/venue_gateway.py: the state of a gateway is a `Net`, which is the
--                arming of the live lock with its warning flag, and the venue. Gateways/Poll is
--                `_backoff_poll`, Gateways/Kalshi and Gateways/Polymarket are the two gateways, with
--                Polymarket/Fills for `_parse_fill` and the scan of trades; Gateways/Live has
--                `gateway_for`.
--   Clients      kalshi_arbitrage/kalshi_executor.py: KalshiOrderClient with its safety gate, over HTTP as a
--                parameter.
--   Risk         kalshi_arbitrage/risk_engine.py: Risk/Slippage has the SlippageModel, Risk the scores and
--                RiskEngine.assess_opportunity, Risk/Gate and Risk/Confidence also how the executor's
--                gate reads an assessment. A Decimal is an element of a type with the interface `Float`.
--   Fees         venue_fees.py on exact decimals; a `ValueError` is `none`.
--   Simulated    kalshi_arbitrage/execution/simulated_gateway.py, with FeeModel of
--                kalshi_arbitrage/mock_execution.py.
--   MockFills    kalshi_arbitrage/mock_execution.py, MockExecutionEngine: market orders on two books.
--   Pnl          kalshi_arbitrage/confirmed_pnl.py: Pnl has the records and their figures, Pnl/Tracker the
--                calls of ConfirmedPnLTracker, Pnl/Receipt its receipts, Pnl/Tape the public trades,
--                Pnl/Totals `summarize`. Pnl/History has its calls as a history.
--   Reconcile    kalshi_arbitrage/reconcile.py: what a venue's record changes, and in Reconcile/Run the
--                Reconciler, which fetches and settles.
--   Books        kalshi_arbitrage/ws_books.py: the BookMirror, and in its children the clients of the two
--                venues and the WsBookFeed that runs both on one mirror.
--   Hypotheses   research/lab/hypothesis.py: the append-only log and its replay.
--   Governance   research/lab/governance.py: `trial_count` over a ledger and that log.
--   Splits       research/splits/lock.py: `compute_splits`.
--   Tests        concrete runs of all of these.
--
-- The executor calls the engine once for each leg and once for an unwind; the engine asks the kill
-- switch and the venue's breaker, and calls the gateway. The engine and the hedge trip the kill switch,
-- which the executor's next pre-flight check reads. The operator's controls trip the same switch and
-- use the same engine. The simulated gateway is one that the engine calls; it charges by the fees. So
-- are the live gateways: the Kalshi one stands on an interface KalshiOrderClient that Clients fills, the
-- Polymarket one on an interface to the client that wraps the venue's SDK.
--
-- The reconciler settles executions of the ledger; Clients also fills its interface to Kalshi. The two feed clients write to one mirror, whose
-- dirty set the monitor takes. The trial count reads the registry's log.
--
-- A number of the source that is a float is an element of a type `A` with the interface `Float`; counts
-- and times of the settings are ℕ. A clock is a parameter: each reading of the time that the code
-- makes is an argument. A gateway is a parameter, a function on a state of its own, which returns an
-- outcome or raises. The hash of a client order id, the allowlist, the balances and
-- the outcome of waiting for both legs (which task is done, and in which order they ran) are
-- parameters. So are, for the reconciler, the clients of the venues, which reply or raise; for the
-- registry, the digest of an idea; for the split, the sorting of the table library. Python's dicts
-- and sets with string keys are association lists and lists without repetition (Common). Two
-- platforms of the tape that are neither venue do not agree. The retry loop is recursion on the
-- attempts that the settings allow, so it needs no fuel. The polling loop is on fuel: the budget in
-- milliseconds is enough, since each round that goes on has slept for one at least.
--
-- Not modelled: logging, the capture file, the raw responses of the venues, and the interleaving of
-- two trades inside one `await`; one trade runs to its end before the next. The Polymarket
-- SDK's wrapper, the matching and analysis of markets, the reading of the capture file into the ledger,
-- the sockets and the rest of the research tree are not part of this library.
-- Decimals are exact: the rounding of Python's context at 28 digits is not modelled.
pub mod Common
pub mod Float
pub mod Breaker
pub mod Config
pub mod KillSwitch
pub mod Order
pub mod Engine
pub mod Executor
pub mod Operator
pub mod LiveLock
pub mod Fees
pub mod Simulated
pub mod MockFills
pub mod Pnl
pub mod Reconcile
pub mod Splits
pub mod Gateways
pub mod Clients
pub mod Risk
pub mod Books
pub mod Hypotheses
pub mod Governance
mod Tests

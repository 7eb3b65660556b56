-- ===== src/Lib.antt =====
-- A trading agent for the Indodax exchange (agent/): it turns analysed market data into proposals,
-- judges every proposal by one risk manager, and keeps its own ledger of cash and positions.
-- What carries the money is modelled here: the arithmetic, the market data that orders are made
-- from, the ledger, and the gate that every order goes through.
--
-- Parts and files.
-- Prelude and its children: shared names, tests on numbers, integers, lists. Dict: a Python dict
--   with text keys, as an association list in insertion order.
-- Decimal: Python's `decimal.Decimal` under its default context. A value is an integer number of
--   units of 10 ** -60, and each operation is exact and then rounded to 28 significant digits, half
--   to even (Decimal/Rounding); Decimal/Laws has what rounding keeps. NaN, the infinities and the
--   signed zero are not modelled: the modelled code makes none of them. Division by zero is `none`.
--   A float setting stands as the Decimal that `Decimal(str(x))` makes of it.
-- Settings, Costs: the settings records of agent/config.py, and agent/analysis/costs.py.
-- Exchange/Pairs, Exchange/Models: agent/exchange/pairs.py over ASCII text, and the rules of a pair,
--   tickers, order books and `estimate_fill` of agent/exchange/models.py. Exchange/Rounding and
--   Snaps have the theorems on `round_price` and `round_qty`, Exchange/Normal, Parts and Spellings those on pair names.
-- Portfolio: the ledger of agent/portfolio/portfolio.py. `apply_fill` returns its result or its
--   `ValueError` with the ledger as it then stands. Portfolio/Invariant and Portfolio/Stops have the
--   theorems; the calls of a history are the `Op`s of Portfolio/Stops.
-- Risk: agent/risk/risk_manager.py. Risk/Types has the data and the early returns (`Step`: go on,
--   return a veto, raise), Risk/Account `check_account`, Risk/Sell `_evaluate_sell`, Risk/Buy
--   `_evaluate_buy` in the steps of its source, Risk/Evaluate `evaluate`. Risk/Chain, Verdicts,
--   Gates, Sales, Purchases and Bought have the theorems.
-- Storage: the tables of agent/storage/db.py that carry orders, fills, decisions and stops, as lists of
--   rows, and the queries on them.
-- Persistence: agent/portfolio/persistence.py. Persistence/History has the histories of a ledger and its
--   fills table, Persistence/Replay, Restore and Recovery what rebuilding makes of them.
-- Calls: calls on an object, which return or raise and leave it as it then stands; Calls/Keeps is what a
--   call keeps of it.
-- Paper: agent/backtest/paper_broker.py. Paper/Walk is `_walk`, Paper/Fills `_fill`, Paper/Execute
--   `execute`, Paper/Resting the resting orders; Paper/Orders and Once have the theorems.
-- Live: agent/execution/executor.py and what it calls of agent/exchange/trade_client.py (Live/Remote,
--   Live/Calls). The exchange is part of the state: lists of its answers to come, whatever they are, and
--   the requests it was sent. Live/Fills is `_fill` and `_apply_state`, Live/Orders `_resolve` and the
--   resting orders, Live/Execute `execute`; Live/Kept, Sent, Once, Ledger, Again,
--   Filled and Grows have the theorems.
--   The random salt of a database's order ids stands as the constructor `live` of `OrderId`.
-- Strategy: agent/strategy/strategy.py over the computed features of a time frame; Strategy/Rules has the
--   theorems.
-- Engine: agent/engine.py. Engine/Context is `build_context` and what an approval changes of it,
--   Engine/Cycle `run_cycle` as calls on its local state; Engine/Judged, Approved, Returns, Allowed and
--   Counted have the theorems. The portfolio manager (agent/portfolio/manager.py) and the analyst
--   (agent/analysis/llm_analyst.py) are functions that the cycle is given.
-- Runner: agent/runner.py's status, capital and days, and `EquityTracker` of agent/engine.py.
--   Runner/Status is a function for each step, Runner/Locks the steps as events with their runs;
--   Runner/Days has the rows of a day; Runner/Locks, Opens, Peaks and Capital have the theorems.
-- LiveGate: agent/execution/live_gate.py, whose problems are values; LiveGate/Sound and Backed have the
--   theorems.
-- RateLimiter: agent/exchange/rate_limiter.py over the readings of its clock, which are whole
--   numbers here and floats there.
-- Deadman: agent/execution/deadman.py. Whether the exchange accepts a heartbeat is an argument.
-- Watchdog: agent/ops/watchdog.py, its problems and its messages; Watchdog/Told and Spaced have the
--   theorems, over the runs of scripts/watchdog.py.
-- Reconcile: agent/execution/reconcile.py. The exchange's answers are arguments.
--
-- Bounds and fuel. Rounding drops a digit each round; its fuel is the number itself, which is enough
-- (`round_quot_mono` has the condition, and Decimal/Laws meets it). `acquire` recurses on the
-- readings of the clock. All other loops are recursions on the list that the source walks.
--
-- Not modelled: the `metrics` that the risk manager stores with a decision and the wording of
-- messages; HTTP clients, logging, reports and the dashboard; everything computed by
-- pandas; the parsers of API responses.
pub mod Prelude
pub mod Decimal
pub mod Dict
pub mod Settings
pub mod Exchange
pub mod Costs
pub mod Calls
pub mod Storage
pub mod Portfolio
pub mod Persistence
pub mod Risk
pub mod RateLimiter
pub mod Deadman
pub mod Reconcile
pub mod Paper
pub mod Live
pub mod Runner
pub mod Strategy
pub mod Engine
pub mod LiveGate
pub mod Watchdog

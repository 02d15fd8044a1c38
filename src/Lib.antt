-- ===== src/Lib.antt =====
-- quantbot: a trading bot for Bybit's USDT perpetuals, of which this library models the core that
-- decides whether and how much to trade, and the state that those decisions rest on.
--
-- The program's main loop (apps/bot/workers) collects candles and order books, asks a strategy for an
-- entry, passes it through guards, and has the risk manager size it; orders go through a gateway to
-- the exchange. A state machine says when new entries are allowed, and a kill switch, cooldowns and
-- the pause of the runtime state close them again.
--
-- Number: Python's Decimal (and the floats of the guards) is not code of the repository, so every
-- component takes its arithmetic as an instance argument, the record Number. Number.Laws has what
-- proofs may use of it, laws of order that also hold of rounded results; "over ordered numbers" in a
-- comment means that they are assumed. One more law, on rounding a price to its tick, holds of exact
-- quotients only and is a hypothesis of its own (IsStepped). Number.Fraction gives exact fractions,
-- which satisfy all of them and on which the tests run.
-- Core and Config: packages/core/enums, packages/core/models and packages/config/settings.py, with the
-- fields that modelled code reads.
-- Universe: packages/universe/symbol_meta.py, rounding to increments and the exchange's minima;
-- Universe.Manager is universe_manager.py, where the loaded instruments are an argument.
-- Risk: packages/risk. Levels is levels.py, Leverage is leverage.py, Sizing is position_sizing.py, Stops
-- and Manager are risk_manager.py: `Manager.approve` is `RiskManager.approve`, a chain of checks in
-- the source's order, each a definition; a rejection carries its reason. The metadata that the
-- source collects for its log is left out.
-- Machine: apps/bot/runtime/bot_state_machine.py. `allowed` is the table of transitions; `transition` and
-- `force` also keep the calls of the listeners. `run` drops refused requests.
-- Guards: packages/guards. KillSwitch is global_kill_switch.py, whose clock readings are arguments;
-- ClockSync, DataQuality, Funding and PreOrder are the checks before an entry and an order;
-- Backoff is `with_backoff` of rate_limit.py, where the retried call is a parameter.
-- Scanner: packages/scanner/symbol_scanner.py. Depth is `depth_usdt_within`, which PreOrder calls too,
-- Score is `scanner_score`, Scan the filter, the ranking and the cut; a `KeyError` is no result.
-- Candles: packages/market_data/candle_store.py, the series of one symbol and interval.
-- Cooldown: packages/position/cooldown.py.
-- Runtime: apps/bot/runtime/runtime_state.py; a dict is an association list in insertion order
-- (Prelude.Maps).
-- Entry: packages/entry/candle_metrics.py (Metrics) and packages/entry/anti_chase.py (AntiChase).
-- Exchange: packages/exchange/gateway.py as a parameter over an unknown world: what a call answers and
-- the world after it. A session is that world with the order manager's cache, the runtime's registries
-- and the requests sent; an action on it returns or raises, and what it did stays done.
-- Execution: packages/execution. Policy is order_policy.py, Resolving, Placing and Orders are
-- order_manager.py: `place` is `OrderManager._place`, with the recovery of a timed out request.
-- Positions: packages/position/position_manager.py. Managed has what the manager reads and keeps: its
-- dicts by symbol are seen at the symbol of the position, so that they outlive one position. Runner,
-- Scout, Scenario and Stagnation are its methods, Trailing the stop and its ratchet, and Evaluate is
-- `PositionManager.evaluate`, one definition for each numbered step. Trailing.follow repeats the update
-- of the extremes and the ratchet over a list of ticks, Evaluate.Bars whole evaluations over bars, with
-- the stop of a TRAIL_UPDATE applied as trading_pipeline.py does it.
-- Positions.Protection is protection_manager.py, actions on a session with the position in their state,
-- which also keeps the last answer that was read back.
-- Messaging.Lock: packages/messaging/runtime_lock.py over Redis as a parameter, the other calls of
-- messaging are not here.
--
-- Bounds: loops are structural recursion, but for two that run on fuel: the retry loop of Backoff, with
-- one more than the configured retries (a round uses one, and after that many the source raises), and
-- the polling of Execution, with one more than the milliseconds to the deadline (a round sleeps at
-- least one).
--
-- Not modelled: reconciliation, the entry scores, the rest of the trading pipeline and the
-- asynchronous runtime are not here yet; the gateway, the indicators, storage, the rest of messaging
-- and the web API are input and output, or libraries' arithmetic.
pub mod Prelude
pub mod Number
pub mod Core
pub mod Config
pub mod Universe
pub mod Exchange
pub mod Messaging
pub mod Execution
pub mod Machine
pub mod Risk
pub mod Scanner
pub mod Guards
pub mod Positions
pub mod Entry
pub mod Cooldown
pub mod Runtime
pub mod Candles

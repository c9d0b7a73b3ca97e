-- ===== src/Lib.antt =====
-- daytradebot: an automated day trader of United States shares, and this development, which models
-- its core: from a candle to a signal's risk check, its order, its fill and its exit, in a backtest
-- and in the live worker.
--
-- The program's parts, and where they are modelled:
--
-- Domain/Market, Domain/Signals, Domain/Orders, Domain/Trades: crates/trader-domain. Timeframes,
-- candles, quotes, market contexts, signals with the reasons for refusing them, orders, positions
-- and trades. The constructors that can fail (`Candle::new`, `Order::new`, `Position::new`) answer
-- an option.
--
-- Session: crates/trader-core/src/session.rs and data_quality.rs, the trading window in New York
-- time and the count of gaps. Indicators: crates/trader-core/src/indicators/mod.rs. Context:
-- crates/trader-core/src/context/mod.rs, which classifies the market from the indicators.
--
-- Risk: crates/trader-core/src/risk. Risk/Config holds `RiskConfig`, `capital_efetivo` and
-- `teto_de_notional`; Risk/Liquidity the median notional of risk/liquidity.rs; Risk/Manager is
-- `RiskManager::validate`, cut at its comments into `day_gates`, `prices_of`, `market_gates`,
-- `price_gates` and `sizing`, which `checked` runs in the order of the source and leaves at the
-- first refusal.
--
-- Execution: crates/trader-core/src/execution/mod.rs. `process_signal` asks the broker for a
-- position, guards against a price that has run past the entry, has the signal validated and sends
-- the bracket. The broker is the record `BrokerOps` of the two methods of the trait `Broker` that
-- the engine calls. TimeExit and TradeTracker are execution/time_exit.rs and
-- execution/trade_tracker.rs.
--
-- Broker: crates/trader-adapters/src/simulated/broker.rs. Broker/State is the state under the lock,
-- its hash maps as association lists; Broker/Costs the commission, slippage and cash flows;
-- Broker/Prices `set_market_price` and `close_position_at_market`; Broker/Market
-- `set_market_candle` (a tick, the waiting entry, the mark, the exit); Broker/Orders the methods
-- that place, cancel and read orders. Broker/Lifecycle is a machine of three phases, flat, awaiting
-- and holding, against which the operations are compared.
--
-- Backtest: crates/trader-backtest. Backtest/Engine is the loop of `BacktestEngine::run`, one
-- candle a `step`, with the simulated broker as the engine's broker; Backtest/Windows is
-- `split_windows` of walkforward.rs; Backtest/Metrics and Backtest/Summary are
-- `BacktestMetrics::compute` of metrics.rs, whose loop is cut into the groups, the counts, the
-- drawdown and the extremes of one trade.
--
-- Live: crates/trader-cli/src/commands/paper.rs, the worker that trades against a broker
-- connection. Live/State is `LiveFillState` and the methods of the broker; Live/Exposure the limits
-- of the whole account; Live/Closing `close_position_at_market` and `cancel_protection_legs`, with
-- what they leave at the broker in Live/Sends and Live/Looks; Live/Trace is a broker with a log of
-- its calls, which Live/Recorded shows to change nothing; Live/Expiry `expire_stale_stop_entry`,
-- compared with the simulated broker in Live/Parity; Live/Flatten the end of the session;
-- Live/Protection the watch over a position's stop and `find_exposure`; Live/Settling the guard on
-- a bar that has just closed; Live/Events `drain_order_events` and `finalize_live_trade`, repeated
-- in Live/Replay; Live/Restart `rebuild_risk_state` and `recover_open_order`; Live/Entry
-- `analyze_and_execute`, with its limits in Live/Gates; Live/Tick the steps of `run_live` for one
-- settled bar, with Live/Blocking on when no entry is sent. What is outside the process, the
-- broker, the database and the alerts, is a world `W`: a call is a function from a world to a world
-- and an answer, so an order can arrive although the answer is an error. The engine's read of a
-- position takes the answer alone. An event that is recorded and sent as an alert is one call.
--
-- Strategies: crates/trader-core/src/strategies. Strategies/OpeningReversal is opening_reversal_v1:
-- Levels its context.rs, Setup and Entry the files of these names, Analysis the method
-- `analyze_candles` of mod.rs. It sums true ranges as the indicator `atr` does, so that function
-- stands for its own copy. Strategies/PullbackTrend is pullback_trend_v1 and
-- Strategies/Low2M2sShort low2_m2s_short_v1: Trend is their context.rs, Setup the file of this
-- name, Analysis their entry.rs and mod.rs. The raw value `last_close` of a context is an argument
-- of their trend test, and none in the analysis, which never writes it. Strategies/BalanceArea is
-- balance_area_breakout_v1, with Area for its context.rs and setup.rs, and Strategies/ValueArea is
-- value_area_reentry_v1: Profile the value area of context.rs, Days the rest of that file, Setup
-- and Entry the files of these names. Strategies/FirstPullback is breakout_first_pullback_v1: Level
-- its context.rs, Pullback its setup.rs, Analysis the search of mod.rs. Strategies/RangeFade is
-- range_extreme_fade_v1: RangeDay and Vetoes its context.rs, Setup its setup.rs and entry.rs.
-- Strategies/Trendline is trendline_break_test_v1: Trend and Break its context.rs, Setup its
-- setup.rs and entry.rs. Strategies/FailureTest is failure_test_long_v1: Momentum what its
-- context.rs reads from the series and Primed `check_context`, Support and Probe its setup.rs,
-- Entry the rest of it and entry.rs. The text of its order type is read in two ways, so the
-- parameters hold both answers. The steps that the strategies share are in Strategies/Checks.
--
-- Tests holds concrete inputs, at whole numbers for decimals.
--
-- How code corresponds to definitions: a method that changes its object is a function from the old
-- state to the new one, with its answer beside it. Numbers that are `usize`, `u32` or `i64` ids in
-- the source are natural numbers; the counters among them grow by one with a candle or a trade, so
-- they stay far below 2^32. Instants are seconds since the Unix epoch. Loops run over a list of
-- candles, orders or fills, and recursion over that list needs no fuel. The loop that widens a
-- value area has as much fuel as the profile has bands, and each round takes one band at least; the
-- searches for a setup have the number of candles to look back that the source computes.
--
-- What is a parameter: `rust_decimal`, as the record `Decimal` of the operations that the program
-- calls; theorems that need laws take `IsOrdered`, the total order, `IsRounded`, what rounding
-- keeps as long as no result overflows, or `IsExact`, the laws of a ring, which hold where no
-- result is rounded. Decimal/Integers shows that the laws can hold together. `chrono-tz`, as the
-- function from an instant to New York's wall clock. Readings of the system clock are arguments.
-- `sort_unstable` is insertion sort. The strategy of a backtest is a function from a context and a
-- history to a signal.
--
-- What is not modelled: reports and the metrics in floating point, the rest of the walk-forward
-- command, the outer loop of the live worker (polling, the rollover of the day, the cursor over
-- candles) and its simulated and replay modes, the Interactive Brokers adapter, repositories,
-- configuration files, the web dashboard and the command line. Within the modelled files, log
-- lines, error texts, json metadata, database ids, and the answers to a poisoned lock are left out.
pub mod Base
pub mod Decimal
pub mod Domain
pub mod Session
pub mod Indicators
pub mod Context
pub mod TimeExit
pub mod TradeTracker
pub mod Risk
pub mod Broker
pub mod Execution
pub mod Backtest
pub mod Strategies
pub mod Live
pub mod Tests

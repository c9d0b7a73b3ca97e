-- ===== src/Tests/Run.antt =====
-- The execution engine and the backtest on concrete inputs.
use daytradebot.Base.{
  arith, ℕ, suc, zero, ◌+◌, ◌/◌, ◌≡◌, ◌≢◌, refl, inl, true, false, none, some, List, [], ◌∷◌,
  length, lookup,
}
use daytradebot.Decimal.Integers.{ℤ, pos, integers}
use daytradebot.Domain.Market.{Candle}
use daytradebot.Domain.Signals.{signal}
use daytradebot.Domain.Orders.{new_order}
use daytradebot.Risk.{
  approved, validate, checked, day_gates, prices_of, market_gates, price_gates, sizing,
  measure_liquidity, capital_efetivo, teto_de_notional, cap_absoluto, cap_liquidez,
}
use daytradebot.Risk.Liquidity.{median_bar_notional, sort, insert_sorted, middle}
use daytradebot.Session.{within_trading_window, et_time, et_date}
use daytradebot.Broker.{
  SimulatedState, OrderId, err, internal, ok, new_broker, place_order, place_by_type, place_bracket,
  await_entry, get_position,
}
use daytradebot.Broker.Fits.{IsExclusive}
use daytradebot.Execution.{
  BrokerOps, executed, process_signal, send, build_bracket_order, is_overrun,
}
use daytradebot.Execution.Safety.{WasPlaced, process_signal-executed, process_signal-fails_closed}
use daytradebot.Backtest.{
  Setup, BacktestEngine, simulated, run_from, settle, is_last_bar_of_session,
}
use daytradebot.Backtest.Flat.{settle-flat}
use daytradebot.Backtest.Limits.{IsWithinLimit, run_from-IsWithinLimit}
use daytradebot.Backtest.Run.{run_from-IsExclusive}
use daytradebot.Backtest.Windows.{
  split_windows, windows_from, Window, IsChain, split_windows-IsChain,
}
use daytradebot.Tests.{
  ny, ten, bar, series, context, entry_signal, risk_config, quiet_day, broker_config,
}

-- A strategy that always sees the same entry.
abbrev setup : Setup ℤ
setup = record {
  symbol = "X";
  broker_config = broker_config;
  risk_config = risk_config;
  flattens = true;
  ny = ny;
  nanos = 7;
  utc_now = 9;
  strategy = λ ctx history. signal entry_signal;
}

abbrev fresh : SimulatedState ℤ
fresh = new_broker broker_config 0

fresh-IsExclusive : IsExclusive fresh
unfolding new_broker lookup
fresh-IsExclusive s = refl

abbrev first_id : OrderId
first_id = record { nanos = 7; number = 0 }

is_executed :
    (process_signal
      (simulated setup)
      risk_config
      ny
      entry_signal
      context
      none
      (some (pos 101))
      quiet_day
      (pos 10_000)
      series
      fresh).1
    ≡ executed first_id (pos 40) (pos 80)
unfolding process_signal send build_bracket_order is_overrun new_order get_position lookup
    new_broker place_order place_by_type place_bracket await_entry validate checked day_gates
    prices_of market_gates price_gates sizing measure_liquidity capital_efetivo teto_de_notional
    cap_absoluto cap_liquidez median_bar_notional sort insert_sorted middle within_trading_window
    et_time
is_executed = refl

process_signal-executed_example :
    ((simulated setup).find_position "X" fresh ≡ ok none)
    × (is_overrun risk_config entry_signal (some (pos 101)) ≡ false)
    × (validate risk_config ny entry_signal context none quiet_day (pos 10_000) series
        ≡ approved (pos 40) (pos 80))
    × WasPlaced
        (simulated setup)
        risk_config
        ny
        entry_signal
        context
        none
        (some (pos 101))
        quiet_day
        (pos 10_000)
        series
        fresh
        first_id
        (pos 40)
process_signal-executed_example =
    process_signal-executed (simulated setup) risk_config ny entry_signal context none
      (some (pos 101)) quiet_day (pos 10_000) series fresh is_executed

-- A broker that does not answer where its positions are.
abbrev silent : BrokerOps (SimulatedState ℤ) OrderId ℤ
silent = record {
  find_position = λ symbol st. err internal;
  submit = λ order st. place_order broker_config 7 order st;
}

no_answer : silent.find_position "X" fresh ≢ ok none
no_answer e = cc

process_signal-fails_closed_example :
    (process_signal silent risk_config ny entry_signal context none
      (some (pos 101))
      quiet_day
      (pos 10_000)
      series
      fresh).0
    ≡ fresh
process_signal-fails_closed_example =
    process_signal-fails_closed silent risk_config ny entry_signal context none (some (pos 101))
      quiet_day (pos 10_000) series fresh (inl no_answer)

abbrev engine : BacktestEngine ℤ
engine = record {
  broker = fresh;
  risk_state = quiet_day;
  current_day = none;
  time_exit = none;
  closed_trades = [];
  daily_equity = [];
}

-- A morning that rises by one with every candle.
abbrev rising : ℕ → ℕ → ℕ → List (Candle ℤ)
rising zero ts price = []
rising (suc n) ts price =
    bar ts price (price + 1) (price + 0) (price + 1) ∷ rising n (ts + 300) (price + 1)

run_from-IsExclusive_example : IsExclusive (run_from setup [] (rising 30 ten 80) engine).broker
run_from-IsExclusive_example =
    run_from-IsExclusive setup [] (rising 30 ten 80) engine fresh-IsExclusive

engine-IsWithinLimit : IsWithinLimit setup engine
engine-IsWithinLimit = omega arith

run_from-IsWithinLimit_example : IsWithinLimit setup (run_from setup [] (rising 30 ten 80) engine)
run_from-IsWithinLimit_example =
    run_from-IsWithinLimit setup [] (rising 30 ten 80) engine engine-IsWithinLimit

abbrev tomorrow : List (Candle ℤ)
tomorrow = bar (ten + 86_400) 104 106 103 105 ∷ []

is_last : is_last_bar_of_session setup (bar (ten + 300) 100 102 99 101) tomorrow ≡ true
unfolding is_last_bar_of_session et_date
is_last = refl

settle-flat_example :
    get_position "X" (settle setup (bar (ten + 300) 100 102 99 101) tomorrow engine).broker ≡ none
settle-flat_example = settle-flat setup (bar (ten + 300) 100 102 99 101) tomorrow engine is_last

abbrev thirds : List Window
thirds =
    record { train_start = 0; train_end = 4; test_start = 4; test_end = 8 }
    ∷ record { train_start = 0; train_end = 8; test_start = 8; test_end = 12 }
    ∷ []

is_split : split_windows 13 2 ≡ some thirds
unfolding split_windows windows_from
is_split = refl

split_windows-IsChain_example : (length thirds ≡ 2) × IsChain (13 / (2 + 1)) 13 thirds
split_windows-IsChain_example = split_windows-IsChain 13 2 is_split

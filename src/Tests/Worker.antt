-- ===== src/Tests/Worker.antt =====
-- The live worker on concrete inputs: replayed fills, a restart, and an entry.
use daytradebot.Base.{
  ℕ, ◌+◌, ◌≡◌, ◌<◌, if◌then◌else◌, refl, Bool, true, false, none, some, List, [], ◌∷◌, reverse,
  length,
}
use daytradebot.Decimal.{◌⊕◌, ◌⊗◌, ◌≼◌, ◌≺◌}
use daytradebot.Decimal.Integers.{ℤ, pos, negsuc, integers, ℤ-IsExact}
use daytradebot.Domain.Market.{m5}
use daytradebot.Domain.Signals.{long, signal, SignalStatus}
use daytradebot.Domain.Orders.{OrderEvent, fill_event, Fill, buy, new_order}
use daytradebot.Domain.Trades.{Position, Trade, ExitReason}
use daytradebot.Context.{analyze, classify_trend, classify_volatility, classify_market_phase}
use daytradebot.Indicators.{ema, sma, atr_percent, atr, relative_volume, range_percent, range_sum}
use daytradebot.Risk.{
  validate, checked, day_gates, prices_of, market_gates, price_gates, sizing, measure_liquidity,
  capital_efetivo, teto_de_notional, cap_absoluto, cap_liquidez,
}
use daytradebot.Risk.Liquidity.{median_bar_notional, sort, insert_sorted, middle}
use daytradebot.Session.{within_trading_window, et_time}
use daytradebot.Broker.{ok}
use daytradebot.Execution.{process_signal, send, build_bracket_order, is_overrun, sync_risk_state}
use daytradebot.Live.State.{LiveBroker, PlacedOrderInfo, halts_trading}
use daytradebot.Live.Events.{LiveRepos, LiveRun, duplicate, inserted, drain_order_events}
use daytradebot.Live.Replay.{drain_order_events_replay}
use daytradebot.Live.Restart.{
  rebuild_risk_state, executed_signals, fresh_day, rebuild_risk_state-sync,
}
use daytradebot.Live.Exposure.{
  listed, counted, aggregate, pct_to_fraction, LossIsLeft, portfolio_limit_hit, exposure_limit_hit,
  daily_loss_hit,
}
use daytradebot.Live.Entry.{
  LiveWorker, order_placed, holds_symbol, notional_prospectivo, analyze_and_execute,
  after_execution,
}
use daytradebot.Live.Gates.{analyze_and_execute_within_account}
use daytradebot.Tests.{ny, series, entry_signal, risk_config, quiet_day}
use daytradebot.Tests.Live.{tracking, held}
use daytradebot.Tests.Market.{analyzer_config}

-- A database for one fill, which is there or not.
abbrev one_fill : LiveRepos Bool ℤ
one_fill = record {
  save_fill = λ f w. (true, if w then duplicate else inserted);
  save_trade = λ t forced w. (w, true);
  mark_filled = λ id q p w. w;
}

abbrev entry_fill : Fill ℤ
entry_fill = record {
  order_id = 0;
  symbol = "X";
  side = buy;
  fill_price = pos 102;
  quantity = pos 10;
  commission = pos 1;
  fees = pos 0;
  broker_fill_id = some "e1";
  timestamp = 600;
}

abbrev before_fill : LiveRun Bool ℤ
before_fill = record { world = false; fills = tracking; risk = quiet_day }

knows_duplicate : (f : Fill ℤ) (w : Bool) → w ≡ true → (one_fill.save_fill f w).1 ≡ duplicate
knows_duplicate f w h = rw h refl

drain_order_events_replay_example :
    (let events : List (OrderEvent ℤ) = fill_event "5" entry_fill ∷ [] in
      let once = drain_order_events (some one_fill) (λ a w. w) "X" 700 before_fill events in
      let twice = drain_order_events (some one_fill) (λ a w. w) "X" 700 once events in
      (twice.fills ≡ once.fills) × (twice.risk ≡ once.risk))
drain_order_events_replay_example =
    drain_order_events_replay one_fill (λ a w. w) "X" 700 (λ f w. w ≡ true) (λ f w. refl)
      knows_duplicate (λ f g w h. refl) (λ f t forced w h. h) (λ f id q p w h. h) (λ f a w h. h)
      (fill_event "5" entry_fill ∷ []) before_fill

abbrev pub result : ℤ → Trade ℤ
result pnl = record {
  symbol = "X";
  signal_id = 1;
  direction = long;
  entry_price = pos 100;
  exit_price = pos 101;
  quantity = pos 10;
  entry_time = 0;
  exit_time = 600;
  stop_price = pos 98;
  target_price = none;
  gross_pnl = pnl;
  commissions = pos 0;
  fees = pos 0;
  net_pnl = pnl;
  risk_amount = pos 20;
  result_in_r = pos 0;
  exit_reason = ExitReason.stop;
}

-- The latest first: two losses, an artefact, and a win.
abbrev day_of_trades : List (Trade ℤ × Bool)
day_of_trades =
    (result (negsuc 19), false)
    ∷ (result (negsuc 9), false)
    ∷ (result (pos 500), true)
    ∷ (result (pos 40), false)
    ∷ []

abbrev day_of_signals : List SignalStatus
day_of_signals = SignalStatus.accepted ∷ SignalStatus.rejected ∷ SignalStatus.accepted ∷ []

rebuild_risk_state-sync_example :
    rebuild_risk_state (some day_of_trades) (some day_of_signals)
    ≡ sync_risk_state
        (record fresh_day { daily_trades = executed_signals day_of_signals })
        (reverse (counted day_of_trades))
rebuild_risk_state-sync_example = rebuild_risk_state-sync ℤ-IsExact day_of_trades day_of_signals

-- An account of ten thousand with a position in another symbol, at a broker that takes every order.
abbrev elsewhere : List (Position ℤ)
elsewhere = record held { symbol = "Y" } ∷ []

abbrev taking : LiveBroker ℕ ℤ
taking = record {
  account_equity = λ w. (w, ok (pos 10_000));
  list_positions = λ w. (w, ok elsewhere);
  find_position = λ k w. (w, ok none);
  list_open_orders = λ w. (w, ok []);
  submit = λ o w. (w + 1, ok "1");
  cancel = λ id w. (w, ok tt);
}

abbrev worker : LiveWorker ℕ ℤ
worker = record {
  symbol = "X";
  timeframe = m5;
  broker = taking;
  repos = none;
  day_trades = λ w. listed [];
  notify = λ a w. w;
  settings = record {
    max_concurrent_positions = 3;
    max_portfolio_notional_pct = some (pos 200);
    max_portfolio_daily_loss_pct = some (pos 300);
  };
  analyzer = analyzer_config;
  strategy = λ ctx candles. signal entry_signal;
  risk_config = risk_config;
  new_york = ny;
  utc_now = λ w. 0;
}

abbrev placed_info : PlacedOrderInfo ℤ
placed_info = record {
  order_db_id = none;
  signal_db_id = none;
  broker_order_id = "1";
  entry_order_type = entry_signal.entry_order_type;
  candles_waited = 0;
  stop_price = pos 100;
  target_price = some (pos 108);
  risk_amount = pos 80;
}

is_placed :
    (analyze_and_execute worker (some (pos 101)) quiet_day series 0).1
    ≡ ok (order_placed placed_info)
unfolding analyze_and_execute process_signal send build_bracket_order is_overrun new_order validate
    checked day_gates prices_of market_gates price_gates sizing measure_liquidity capital_efetivo
    teto_de_notional cap_absoluto cap_liquidez median_bar_notional sort insert_sorted middle
    within_trading_window et_time holds_symbol after_execution portfolio_limit_hit
    exposure_limit_hit daily_loss_hit analyze pct_to_fraction counted classify_trend
    classify_volatility classify_market_phase ema sma atr atr_percent relative_volume range_percent
    range_sum halts_trading
is_placed = refl

analyze_and_execute_within_account_example :
    (holds_symbol "X" elsewhere ≡ false)
    × (length elsewhere < 3)
    × (aggregate elsewhere ≺ pos 10_000 ⊗ pct_to_fraction (some (pos 200)))
    × (aggregate elsewhere ⊕ notional_prospectivo worker (pos 10_000)
        ≼ pos 10_000 ⊗ pct_to_fraction (some (pos 200)))
    × LossIsLeft (pos 10_000) (some (pos 300)) (listed [])
analyze_and_execute_within_account_example =
    analyze_and_execute_within_account worker (some (pos 101)) quiet_day series 0 0 0 (pos 10_000)
      elsewhere (order_placed placed_info) placed_info refl refl refl is_placed refl

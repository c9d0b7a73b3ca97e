-- ===== src/Tests/Reversal.antt =====
-- The strategy opening_reversal_v1 on a concrete series.
use daytradebot.Base.{◌-◌, ◌≡◌, refl, none, some, List, [], ◌∷◌}
use daytradebot.Decimal.{◌≼◌}
use daytradebot.Decimal.Integers.{ℤ, pos, integers, ℤ-IsOrdered}
use daytradebot.Session.{et_date, et_time, within_trading_window}
use daytradebot.Indicators.{ema, sma, atr, atr_percent, relative_volume, range_percent, range_sum}
use daytradebot.Context.{analyze, classify_trend, classify_volatility, classify_market_phase}
use daytradebot.Domain.Market.{Candle, m5}
use daytradebot.Domain.Signals.{Signal, long, signal, SignalStatus}
use daytradebot.Domain.Orders.{EntryOrderType}
use daytradebot.Risk.{Prices, go_on, prices_of, risk_reward}
use daytradebot.Strategies.Checks.{last_in_hours}
use daytradebot.Strategies.OpeningReversal.Params.{StrategyParameters}
use daytradebot.Strategies.OpeningReversal.Levels.{
  scan_back, yesterday_levels, check_trading_hours, momentum_veto, counter_trend_veto,
}
use daytradebot.Strategies.OpeningReversal.Setup.{tested_level, is_strong, is_vetoed, detect_setup}
use daytradebot.Strategies.OpeningReversal.Entry.{
  is_monetary, prices_at, evaluate_prices, build_signal,
}
use daytradebot.Strategies.OpeningReversal.Analysis.{analyzer_of, decide_signal, analyze_candles}
use daytradebot.Strategies.OpeningReversal.Soundness.{LastWithinWindow, analyze_candles-IsSound}
use daytradebot.Tests.{ny, ten, bar, risk_config}

abbrev params : StrategyParameters ℤ
params = record {
  operational_timeframe = some m5;
  level_zone_pct = pos 0;
  signal_body_min_pct = pos 0;
  signal_wick_min_pct = pos 0;
  momentum_body_pct = pos 1;
  momentum_bars = 2;
  counter_trend_bars = 4;
  counter_window = 6;
  atr_period = 1;
  stop_atr_mult = pos 2;
  monetary_stop_range_pct = pos 1;
  entry_order_type = EntryOrderType.stop;
  entry_offset_ticks = pos 1;
  entry_validity_candles = 2;
  target_r_multiple = pos 2;
  min_risk_reward = pos 2;
  risk_per_trade_pct = none;
  max_spread_pct = pos 1;
  max_atr_pct = pos 15;
  tick_size = pos 1;
  trading_start_time = record { hour = 9; minute = 30; second = 0 };
  trading_end_time = record { hour = 10; minute = 30; second = 0 };
}

-- Yesterday's range is 100 to 120; the last bar turns at its low.
abbrev two_days : List (Candle ℤ)
two_days = bar (ten - 86_400) 110 120 100 105 ∷ bar ten 101 110 100 109 ∷ []

abbrev reversal : Signal ℤ
reversal = record {
  symbol = "X";
  timeframe = m5;
  timestamp = 7;
  direction = long;
  status = SignalStatus.accepted;
  entry_order_type = EntryOrderType.stop;
  entry_price = some (pos 111);
  stop_price = some (pos 99);
  target_price = some (pos 135);
  risk_reward_ratio = some (pos 2);
  risk_percent = none;
}

is_reversal : analyze_candles ny 7 "X" params two_days ≡ signal reversal
unfolding analyze_candles decide_signal analyze classify_trend classify_volatility
    classify_market_phase ema sma atr atr_percent relative_volume range_percent range_sum scan_back
    yesterday_levels check_trading_hours last_in_hours momentum_veto counter_trend_veto tested_level
    is_strong is_vetoed detect_setup is_monetary prices_at evaluate_prices build_signal analyzer_of
    et_date et_time within_trading_window
is_reversal = refl

analyze_candles-IsSound_example :
    LastWithinWindow ny params two_days
    × ((p : Prices ℤ) × ((prices_of reversal ≡ go_on p) × (pos 2 ≼ risk_reward p)))
analyze_candles-IsSound_example =
    analyze_candles-IsSound ℤ-IsOrdered risk_config ny 7 "X" params two_days reversal refl
      is_reversal

-- ===== src/Tests/Pullbacks.antt =====
-- The strategies pullback_trend_v1 and low2_m2s_short_v1 on concrete series.
use daytradebot.Base.{◌+◌, ◌≡◌, ◌≤◌, refl, none, some, List, [], ◌∷◌}
use daytradebot.Decimal.{◌≼◌, ◌≺◌}
use daytradebot.Decimal.Integers.{ℤ, pos, integers, ℤ-IsOrdered, ℤ-IsRounded}
use daytradebot.Indicators.{ema, sma, atr, atr_percent, relative_volume, range_percent, range_sum}
use daytradebot.Context.{analyze, classify_trend, classify_volatility, classify_market_phase}
use daytradebot.Domain.Market.{Candle, m5, is_bullish, is_bearish}
use daytradebot.Domain.Signals.{Signal, long, short, signal, SignalStatus}
use daytradebot.Domain.Orders.{EntryOrderType}
use daytradebot.Risk.{Prices, go_on, prices_of}
use daytradebot.Strategies.PullbackTrend.Params.{PullbackParameters}
use daytradebot.Strategies.PullbackTrend.Trend.{
  check_uptrend, closes_above, consecutive_closes_above_ema,
}
use daytradebot.Strategies.PullbackTrend.Setup as Up
use daytradebot.Strategies.PullbackTrend.Analysis as Rise
use daytradebot.Strategies.PullbackTrend.Soundness.{IsUptrend, pullback-IsSound}
use daytradebot.Strategies.Low2M2sShort.Params.{Low2Parameters}
use daytradebot.Strategies.Low2M2sShort.Trend.{
  check_downtrend, closes_below, consecutive_closes_below_ema,
}
use daytradebot.Strategies.Low2M2sShort.Setup as Down
use daytradebot.Strategies.Low2M2sShort.Analysis as Fall
use daytradebot.Strategies.Low2M2sShort.Soundness.{IsDowntrend, low_2-IsSound}
use daytradebot.Tests.{ten, bar}

abbrev long_params : PullbackParameters ℤ
long_params = record {
  operational_timeframe = some m5;
  min_candles_above_ema20 = 1;
  ema_context_period = 2;
  sma_context_period = 200;
  max_pullback_candles = 5;
  min_signal_body_ratio = pos 0;
  signal_close_position = "upper_third";
  entry_offset_ticks = pos 1;
  stop_offset_ticks = pos 1;
  reward_multiple = pos 2;
  entry_order_type = EntryOrderType.stop;
  entry_validity_candles = 1;
  max_spread_pct = pos 1;
  max_atr_pct = pos 15;
  min_risk_reward = pos 2;
  tick_size = pos 1;
  trading_start_time = record { hour = 9; minute = 30; second = 0 };
  trading_end_time = record { hour = 16; minute = 0; second = 0 };
}

-- The last bar closes high, above a lower low before it.
abbrev rising : List (Candle ℤ)
rising =
    bar ten 98 101 97 100 ∷ bar (ten + 300) 100 102 96 101 ∷ bar (ten + 600) 101 107 99 106 ∷ []

abbrev purchase : Signal ℤ
purchase = record {
  symbol = "X";
  timeframe = m5;
  timestamp = 7;
  direction = long;
  status = SignalStatus.accepted;
  entry_order_type = EntryOrderType.stop;
  entry_price = some (pos 108);
  stop_price = some (pos 98);
  target_price = some (pos 128);
  risk_reward_ratio = some (pos 2);
  risk_percent = none;
}

is_purchase : Rise.analyze_candles 7 "X" long_params rising ≡ signal purchase
unfolding Rise.analyze_candles Rise.decide_signal Rise.analyzer_of Rise.build_signal analyze
    classify_trend classify_volatility classify_market_phase ema sma atr atr_percent relative_volume
    range_percent range_sum check_uptrend closes_above consecutive_closes_above_ema is_bullish
    Up.is_bullish_signal_bar Up.climb Up.pullback_before Up.is_lowest_low Up.priced_long Up.setup_at
    Up.search_back Up.detect_pullback
is_purchase = refl

pullback-IsSound_example :
    IsUptrend "X" long_params rising
    × (1 ≤ consecutive_closes_above_ema rising 2)
    × (purchase.direction ≡ long)
    × ((p : Prices ℤ) × ((prices_of purchase ≡ go_on p)
          × (p.stop ≺ p.entry)
          × (p.entry ≼ p.target)
          × (pos 106 ≺ p.entry)))
pullback-IsSound_example =
    pullback-IsSound ℤ-IsOrdered ℤ-IsRounded 7 "X" long_params rising purchase refl is_purchase

abbrev short_params : Low2Parameters ℤ
short_params = record {
  operational_timeframe = some m5;
  min_candles_below_ema20 = 1;
  ema_context_period = 2;
  sma_context_period = 200;
  max_pullback_candles = 5;
  min_signal_body_ratio = pos 0;
  signal_close_position = "lower_third";
  entry_offset_ticks = pos 1;
  stop_offset_ticks = pos 1;
  reward_multiple = pos 2;
  entry_order_type = EntryOrderType.stop;
  entry_validity_candles = 1;
  max_spread_pct = pos 1;
  max_atr_pct = pos 15;
  min_risk_reward = pos 2;
  risk_per_trade_pct = none;
  tick_size = pos 1;
  trading_start_time = record { hour = 9; minute = 30; second = 0 };
  trading_end_time = record { hour = 16; minute = 0; second = 0 };
}

abbrev falling : List (Candle ℤ)
falling =
    bar ten 108 109 105 106 ∷ bar (ten + 300) 106 110 104 105 ∷ bar (ten + 600) 105 107 99 100 ∷ []

abbrev sale : Signal ℤ
sale = record {
  symbol = "X";
  timeframe = m5;
  timestamp = 7;
  direction = short;
  status = SignalStatus.accepted;
  entry_order_type = EntryOrderType.stop;
  entry_price = some (pos 98);
  stop_price = some (pos 108);
  target_price = some (pos 78);
  risk_reward_ratio = some (pos 2);
  risk_percent = none;
}

is_sale : Fall.analyze_candles 7 "X" short_params falling ≡ signal sale
unfolding Fall.analyze_candles Fall.decide_signal Fall.analyzer_of Fall.build_signal analyze
    classify_trend classify_volatility classify_market_phase ema sma atr atr_percent relative_volume
    range_percent range_sum check_downtrend closes_below consecutive_closes_below_ema is_bearish
    Down.is_bearish_signal_bar Down.descend Down.pullback_before Down.is_highest_high
    Down.priced_short Down.setup_at Down.search_back Down.detect_low_2
is_sale = refl

low_2-IsSound_example :
    IsDowntrend "X" short_params falling
    × (1 ≤ consecutive_closes_below_ema falling 2)
    × (sale.direction ≡ short)
    × ((p : Prices ℤ) × ((prices_of sale ≡ go_on p)
          × (p.entry ≺ p.stop)
          × (p.target ≼ p.entry)
          × (p.entry ≺ pos 100)))
low_2-IsSound_example =
    low_2-IsSound ℤ-IsOrdered ℤ-IsRounded 7 "X" short_params falling sale refl is_sale

-- ===== src/Tests/Primed.antt =====
-- The strategy failure_test_long_v1 on concrete series.
use daytradebot.Base.{◌+◌, ◌≡◌, refl, false, none, some, List, [], ◌∷◌}
use daytradebot.Decimal.Integers.{ℤ, pos, negsuc, integers}
use daytradebot.Indicators.{ema, atr}
use daytradebot.Domain.Market.{Candle, m5}
use daytradebot.Domain.Orders.{EntryOrderType}
use daytradebot.Domain.Signals.{Signal, long, SignalStatus}
use daytradebot.Risk.{go_on}
use daytradebot.Strategies.FailureTest.Params.{FailureParameters}
use daytradebot.Strategies.FailureTest.Primed.{ContextData, by_drop}
use daytradebot.Strategies.FailureTest.Support.{
  SupportLevel, keep, pivot_lows, first_touch, any_close_under, find_support_level,
}
use daytradebot.Tests.{ten, bar}

abbrev failure_params : FailureParameters ℤ
failure_params = record {
  operational_timeframe = some m5;
  level_lookback_candles = 3;
  level_min_touches = 2;
  level_touch_tolerance_pct = pos 0;
  level_min_age_candles = 1;
  keltner_ema_period = 2;
  keltner_atr_mult = pos 2;
  atr_period = 1;
  climax_lookback_candles = 2;
  overextension_atr_mult = pos 1;
  macd_fast_sma = 1;
  macd_slow_sma = 2;
  macd_signal_sma = 2;
  macd_lookback_candles = 2;
  climax_bar_atr_mult = pos 2;
  probe_max_bars = 1;
  probe_max_atr_mult = pos 1;
  signal_close_min_position = pos 0;
  entry_order_type = EntryOrderType.stop;
  is_market_next_open = false;
  entry_offset_ticks = pos 1;
  entry_validity_candles = 2;
  stop_jitter_atr_mult = pos 0;
  min_stop_bar_ranges = pos 1;
  max_stop_atr_mult = pos 5;
  target_r_multiple = pos 2;
  min_risk_reward = pos 2;
  allow_reentry = false;
  reentry_window_candles = 0;
  risk_per_trade_pct = none;
  max_spread_pct = pos 1;
  max_atr_pct = pos 15;
  tick_size = pos 1;
  trading_start_time = some 35_100;
  trading_end_time = some 55_800;
}

-- A fall of 15 from the high, more than the range of the last bar.
abbrev fallen : List (Candle ℤ)
fallen =
    bar ten 109 115 108 110 ∷ bar (ten + 300) 110 111 102 104 ∷ bar (ten + 600) 104 105 98 100 ∷ []

abbrev primed : ContextData ℤ
primed = record {
  ema = some (pos 102);
  atr = pos 7;
  atr_pct = some (pos 0);
  keltner_lower = some (pos 88);
  macd_fast = some (negsuc 1);
  overextension = by_drop;
}

abbrev support_params : FailureParameters ℤ
support_params = record failure_params { level_lookback_candles = 8 }

-- Two lows at 100, with higher ones between and after them.
abbrev supported : List (Candle ℤ)
supported =
    bar ten 106 108 105 107
    ∷ bar (ten + 300) 106 107 104 105
    ∷ bar (ten + 600) 104 105 100 103
    ∷ bar (ten + 900) 104 106 103 105
    ∷ bar (ten + 1200) 105 107 104 106
    ∷ bar (ten + 1500) 104 105 100 103
    ∷ bar (ten + 1800) 104 106 103 105
    ∷ bar (ten + 2100) 103 104 102 103
    ∷ bar (ten + 2400) 105 107 104 106
    ∷ []

abbrev support : SupportLevel ℤ
support = record { price = pos 100; touches = 2; first_touch_index = 2 }

is_support : find_support_level supported support_params ≡ go_on support
unfolding find_support_level keep pivot_lows first_touch any_close_under
is_support = refl

-- The same support, after a higher high, with a last candle that goes under it and closes over it.
abbrev tested : List (Candle ℤ)
tested =
    bar ten 106 108 105 107
    ∷ bar (ten + 300) 106 120 104 105
    ∷ bar (ten + 600) 104 105 100 103
    ∷ bar (ten + 900) 104 106 103 105
    ∷ bar (ten + 1200) 105 107 104 106
    ∷ bar (ten + 1500) 104 105 100 103
    ∷ bar (ten + 1800) 104 106 103 105
    ∷ bar (ten + 2100) 103 104 102 103
    ∷ bar (ten + 2400) 101 102 98 101
    ∷ []

abbrev after_test : Signal ℤ
after_test = record {
  symbol = "X";
  timeframe = m5;
  timestamp = 7;
  direction = long;
  status = SignalStatus.accepted;
  entry_order_type = EntryOrderType.stop;
  entry_price = some (pos 103);
  stop_price = some (pos 97);
  target_price = some (pos 115);
  risk_reward_ratio = some (pos 2);
  risk_percent = none;
}

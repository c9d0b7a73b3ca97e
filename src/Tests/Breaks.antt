-- ===== src/Tests/Breaks.antt =====
-- The strategies breakout_first_pullback_v1 and range_extreme_fade_v1 on concrete series.
use daytradebot.Base.{◌+◌, ◌-◌, ◌≡◌, refl, false, none, some, List, [], ◌∷◌, ◌++◌}
use daytradebot.Decimal.Integers.{ℤ, pos, integers, ℤ-IsRounded}
use daytradebot.Session.{et_date, et_time, within_trading_window}
use daytradebot.Indicators.{ema, sma, atr, atr_percent, relative_volume, range_percent, range_sum}
use daytradebot.Context.{analyze, classify_trend, classify_volatility, classify_market_phase}
use daytradebot.Domain.Market.{Candle, m5}
use daytradebot.Domain.Signals.{Signal, long, short, signal, SignalStatus}
use daytradebot.Domain.Orders.{EntryOrderType}
use daytradebot.Strategies.Checks.{LastWithin, last_in_hours}
use daytradebot.Strategies.FirstPullback.Params.{FirstPullbackParameters}
use daytradebot.Strategies.FirstPullback.Level as Level
use daytradebot.Strategies.FirstPullback.Pullback as Pull
use daytradebot.Strategies.FirstPullback.Entry as Priced
use daytradebot.Strategies.FirstPullback.Analysis as First
use daytradebot.Strategies.FirstPullback.Soundness as FirstSound
use daytradebot.Strategies.ValueArea.Days as Days
use daytradebot.Strategies.RangeFade.Params.{FadeParameters}
use daytradebot.Strategies.RangeFade.RangeDay as RangeDay
use daytradebot.Strategies.RangeFade.Vetoes as Vetoes
use daytradebot.Strategies.RangeFade.Setup as Fade
use daytradebot.Strategies.RangeFade.Analysis as Fading
use daytradebot.Strategies.RangeFade.Soundness as FadeSound
use daytradebot.Tests.{ny, ten, bar}
use daytradebot.Tests.Areas.{yesterday}

abbrev first_params : FirstPullbackParameters ℤ
first_params = record {
  operational_timeframe = some m5;
  level_lookback_candles = 3;
  level_min_touches = 2;
  level_touch_tolerance_pct = pos 0;
  atr_period = 1;
  breakout_close_atr_mult = pos 1;
  breakout_range_mult = pos 2;
  breakout_volume_mult = pos 1;
  avg_period = 1;
  pullback_min_candles = 2;
  pullback_max_candles = 3;
  max_retrace_pct = pos 1;
  pivot_lookback_candles = 3;
  entry_order_type = EntryOrderType.stop;
  entry_offset_ticks = pos 1;
  entry_validity_candles = 2;
  min_stop_bar_ranges = pos 1;
  max_stop_atr_mult = pos 5;
  target_r_multiple = pos 2;
  min_risk_reward = pos 2;
  risk_per_trade_pct = none;
  max_spread_pct = pos 1;
  max_atr_pct = pos 15;
  tick_size = pos 1;
  trading_start_time = record { hour = 9; minute = 30; second = 0 };
  trading_end_time = record { hour = 15; minute = 30; second = 0 };
}

-- Three bars under 100, a close at 105, and two bars of pullback.
abbrev broken : List (Candle ℤ)
broken =
    bar ten 98 100 95 98
    ∷ bar (ten + 300) 98 100 96 99
    ∷ bar (ten + 600) 99 99 95 98
    ∷ bar (ten + 900) 98 120 98 105
    ∷ bar (ten + 1200) 104 105 101 102
    ∷ bar (ten + 1500) 102 104 101 103
    ∷ []

abbrev after_pullback : Signal ℤ
after_pullback = record {
  symbol = "X";
  timeframe = m5;
  timestamp = 7;
  direction = long;
  status = SignalStatus.accepted;
  entry_order_type = EntryOrderType.stop;
  entry_price = some (pos 105);
  stop_price = some (pos 95);
  target_price = some (pos 125);
  risk_reward_ratio = some (pos 2);
  risk_percent = none;
}

is_after_pullback : First.analyze_candles ny 7 "X" first_params broken ≡ signal after_pullback
unfolding First.analyze_candles First.decide_signal First.finish First.search First.analyzer_of
    analyze classify_trend classify_volatility classify_market_phase ema sma atr atr_percent
    relative_volume range_percent range_sum last_in_hours Level.check_hours Level.closes_over
    Level.count_touches Level.detect_breakout Pull.closes_under Pull.detect_first_pullback
    Priced.pullback_prices Priced.pullback_checked Priced.pullback_signal et_time
    within_trading_window
is_after_pullback = refl

first_pullback-IsSound_example :
    LastWithin ny first_params.trading_start_time first_params.trading_end_time broken
    × ((atr_value : ℤ) × ((b : Level.Breakout ℤ) × ((setup : Pull.PullbackSetup ℤ)
            × (FirstSound.ComesFrom first_params broken atr_value b setup
                × FirstSound.HasPullbackPrices atr_value first_params setup after_pullback))))
first_pullback-IsSound_example =
    FirstSound.first_pullback-IsSound ℤ-IsRounded ny 7 "X" first_params broken after_pullback
      is_after_pullback

abbrev fade_params : FadeParameters ℤ
fade_params = record {
  operational_timeframe = some m5;
  structure_lookback = 12;
  max_ema_slope_pct_per_bar = pos 1;
  daily_atr_period = 1;
  max_day_range_atr_mult = pos 2;
  max_extension_atr_mult = pos 1;
  use_ema_side_rule = false;
  ema_side_lookback = 8;
  midday_start_time = record { hour = 11; minute = 30; second = 0 };
  midday_end_time = record { hour = 14; minute = 0; second = 0 };
  barb_wire_bars = 3;
  barb_wire_overlap_pct = pos 0;
  barb_wire_doji_body_pct = pos 0;
  signal_body_min_pct = pos 0;
  signal_wick_min_pct = pos 0;
  atr_period = 1;
  entry_order_type = EntryOrderType.stop;
  entry_offset_ticks = pos 1;
  entry_validity_candles = 2;
  target_r_multiple = pos 2;
  min_risk_reward = pos 2;
  risk_per_trade_pct = none;
  max_spread_pct = pos 1;
  max_atr_pct = pos 15;
  tick_size = pos 1;
  trading_start_time = record { hour = 9; minute = 30; second = 0 };
  trading_end_time = record { hour = 15; minute = 30; second = 0 };
}

-- Two days between 100 and 110, and a bar that goes to 111 and closes at 101.
abbrev turned_back : List (Candle ℤ)
turned_back =
    bar (ten - 172_800) 105 110 100 105 ∷ yesterday 37
    ++ (bar ten 105 110 100 105 ∷ bar (ten + 300) 108 111 100 101 ∷ [])

abbrev faded : Signal ℤ
faded = record {
  symbol = "X";
  timeframe = m5;
  timestamp = 7;
  direction = short;
  status = SignalStatus.accepted;
  entry_order_type = EntryOrderType.stop;
  entry_price = some (pos 99);
  stop_price = some (pos 112);
  target_price = some (pos 73);
  risk_reward_ratio = some (pos 2);
  risk_percent = none;
}

is_faded : Fading.analyze_candles ny 7 "X" fade_params turned_back ≡ signal faded
unfolding Fading.analyze_candles Fading.decide_signal Fading.analyzer_of analyze classify_trend
    classify_volatility classify_market_phase ema sma atr atr_percent relative_volume range_percent
    range_sum last_in_hours RangeDay.check_hours RangeDay.day_extremes_before_signal RangeDay.tops
    RangeDay.bottoms RangeDay.has_trend_structure RangeDay.ema_slope_per_bar
    RangeDay.check_range_day Vetoes.is_midday_midrange Vetoes.wired Vetoes.is_barb_wire
    Vetoes.count_above Vetoes.ema_side_veto Fade.broken_side Fade.is_strong_fade Fade.detect_fade
    Fade.fade_prices Fade.fade_checked Fade.fade_signal Days.same_day Days.current_day_start
    Days.daily_ranges Days.total Days.daily_atr et_date et_time within_trading_window
is_faded = refl

fade-IsSound_example :
    LastWithin ny fade_params.trading_start_time fade_params.trading_end_time turned_back
    × ((atr_value : ℤ) × ((daily : ℤ) × ((setup : Fade.FadeSetup ℤ) × (FadeSound.ComesFrom ny
                fade_params turned_back atr_value daily setup
              × FadeSound.HasFadePrices fade_params setup faded))))
fade-IsSound_example = FadeSound.fade-IsSound ny 7 "X" fade_params turned_back faded is_faded

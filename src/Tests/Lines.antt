-- ===== src/Tests/Lines.antt =====
-- The strategy trendline_break_test_v1 on a concrete series.
use daytradebot.Base.{◌+◌, ◌*◌, ◌≡◌, refl, none, some, ℕ, List, [], ◌∷◌}
use daytradebot.Decimal.Integers.{ℤ, pos, integers}
use daytradebot.Session.{et_time, within_trading_window}
use daytradebot.Indicators.{ema, sma, atr, atr_percent, relative_volume, range_percent, range_sum}
use daytradebot.Context.{analyze, classify_trend, classify_volatility, classify_market_phase}
use daytradebot.Domain.Market.{Candle, m5}
use daytradebot.Domain.Signals.{Signal, long, signal, SignalStatus}
use daytradebot.Domain.Orders.{EntryOrderType}
use daytradebot.Strategies.Checks.{LastWithin, last_in_hours}
use daytradebot.Strategies.Trendline.Params.{TrendlineParameters}
use daytradebot.Strategies.Trendline.Trend as Trend
use daytradebot.Strategies.Trendline.Break as Break
use daytradebot.Strategies.Trendline.Setup as Test
use daytradebot.Strategies.Trendline.Analysis as Line
use daytradebot.Strategies.Trendline.Soundness.{ComesFrom, HasTestPrices, trendline-IsSound}
use daytradebot.Tests.{ny, ten, bar}

abbrev line_params : TrendlineParameters ℤ
line_params = record {
  operational_timeframe = some m5;
  trend_lookback = 8;
  pivot_bars = 1;
  break_min_bars = 2;
  break_min_closes_beyond_ema = 0;
  break_max_age = 4;
  test_tolerance_pct = pos 2;
  max_overshoot_atr = pos 1;
  signal_body_min_pct = pos 0;
  signal_wick_min_pct = pos 0;
  atr_period = 1;
  entry_order_type = EntryOrderType.stop;
  entry_offset_ticks = pos 1;
  entry_validity_candles = 2;
  target_r_multiple = pos 2;
  min_risk_reward = pos 2;
  max_stop_atr = pos 10;
  min_stop_atr = pos 0;
  risk_per_trade_pct = none;
  max_spread_pct = pos 1;
  max_atr_pct = pos 15;
  tick_size = pos 1;
  trading_start_time = record { hour = 9; minute = 30; second = 0 };
  trading_end_time = record { hour = 15; minute = 30; second = 0 };
}

abbrev at : ℕ → ℕ → ℕ → ℕ → ℕ → Candle ℤ
at n = bar (ten + 300 * n)

-- Highs of 130 and 118 on the way down to 90, a leg up to 122, and a test of the low at 91.
abbrev tested : List (Candle ℤ)
tested =
    at 0 112 115 110 112
    ∷ at 1 112 115 110 112
    ∷ at 2 112 115 110 112
    ∷ at 3 112 115 110 112
    ∷ at 4 112 115 110 112
    ∷ at 5 112 115 110 112
    ∷ at 6 115 120 111 118
    ∷ at 7 118 130 115 120
    ∷ at 8 118 120 105 106
    ∷ at 9 106 112 100 108
    ∷ at 10 108 118 103 105
    ∷ at 11 105 110 95 96
    ∷ at 12 96 100 90 92
    ∷ at 13 92 106 91 104
    ∷ at 14 104 122 103 120
    ∷ at 15 119 120 104 105
    ∷ at 16 105 106 95 96
    ∷ at 17 94 103 91 102
    ∷ []

abbrev reversal : Signal ℤ
reversal = record {
  symbol = "X";
  timeframe = m5;
  timestamp = 7;
  direction = long;
  status = SignalStatus.accepted;
  entry_order_type = EntryOrderType.stop;
  entry_price = some (pos 104);
  stop_price = some (pos 90);
  target_price = some (pos 132);
  risk_reward_ratio = some (pos 2);
  risk_percent = none;
}

is_reversal : Line.analyze_candles ny 7 "X" line_params tested ≡ signal reversal
unfolding Line.analyze_candles Line.decide_signal Line.analyzer_of analyze classify_trend
    classify_volatility classify_market_phase ema sma atr atr_percent relative_volume range_percent
    range_sum last_in_hours Trend.all_up_to Trend.indices_where Trend.scan Trend.pivots
    Trend.bear_of Trend.bull_of Trend.qualify_trend Trend.detect_trend Break.check_hours
    Break.trendline_value_at Break.first_break Break.count_beyond Break.find_trendline_break
    Test.is_reversal_bar Test.detect_test Test.test_prices Test.test_checked Test.test_signal
    et_time within_trading_window
is_reversal = refl

trendline-IsSound_example :
    LastWithin ny line_params.trading_start_time line_params.trading_end_time tested
    × ((atr_value : ℤ) × ((trend : Trend.TrendContext ℤ) × ((brk : Break.TrendlineBreak ℤ)
            × ((setup : Test.TestSetup ℤ) × (ComesFrom line_params tested atr_value trend brk setup
                  × HasTestPrices line_params setup reversal)))))
trendline-IsSound_example = trendline-IsSound ny 7 "X" line_params tested reversal is_reversal

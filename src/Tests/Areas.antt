-- ===== src/Tests/Areas.antt =====
-- The strategies balance_area_breakout_v1 and value_area_reentry_v1 on concrete series.
use daytradebot.Base.{
  arith, ℕ, zero, suc, ◌⊎◌, ◌-◌, ◌+◌, ◌*◌, ◌≡◌, ◌≤◌, ◌<◌, refl, false, none, some, List, [], ◌∷◌,
  ◌++◌,
}
use daytradebot.Decimal.Integers.{ℤ, pos, integers}
use daytradebot.Session.{et_date, et_time, within_trading_window}
use daytradebot.Indicators.{ema, sma, atr, atr_percent, relative_volume, range_percent, range_sum}
use daytradebot.Context.{analyze, classify_trend, classify_volatility, classify_market_phase}
use daytradebot.Domain.Market.{Candle, m5}
use daytradebot.Domain.Signals.{Signal, long, signal, SignalStatus}
use daytradebot.Domain.Orders.{EntryOrderType}
use daytradebot.Strategies.Checks.{LastWithin, last_in_hours}
use daytradebot.Strategies.BalanceArea.Params.{BalanceParameters}
use daytradebot.Strategies.BalanceArea.Area as Balance
use daytradebot.Strategies.BalanceArea.Entry as Out
use daytradebot.Strategies.BalanceArea.Analysis as Break
use daytradebot.Strategies.BalanceArea.Soundness.{ComesFrom, HasBreakoutPrices, breakout-IsSound}
use daytradebot.Strategies.ValueArea.Params.{ValueParameters}
use daytradebot.Strategies.ValueArea.Profile.{
  ValueArea, sum, window, pick_poc, find_poc, widen, goes_on, expand, reach_of,
}
use daytradebot.Strategies.ValueArea.Densest.{densest}
use daytradebot.Strategies.ValueArea.Coverage.{reach_of-covers}
use daytradebot.Strategies.ValueArea.Days as Days
use daytradebot.Strategies.ValueArea.Setup as Back
use daytradebot.Strategies.ValueArea.Entry as Through
use daytradebot.Strategies.ValueArea.Analysis as Cross
use daytradebot.Strategies.ValueArea.Soundness as Traversal
use daytradebot.Tests.{ny, ten, bar}

abbrev balance_params : BalanceParameters ℤ
balance_params = record {
  operational_timeframe = some m5;
  balance_lookback_candles = 2;
  balance_max_width_pct = pos 0;
  balance_max_width_atr_mult = pos 10;
  atr_period = 1;
  entry_order_type = EntryOrderType.stop;
  entry_offset_ticks = pos 1;
  entry_validity_candles = 2;
  stop_buffer_atr_mult = pos 0;
  max_stop_atr_mult = pos 3;
  target_r_multiple = pos 2;
  min_risk_reward = pos 2;
  risk_per_trade_pct = none;
  max_spread_pct = pos 1;
  max_atr_pct = pos 15;
  tick_size = pos 1;
  trading_start_time = record { hour = 9; minute = 30; second = 0 };
  trading_end_time = record { hour = 15; minute = 30; second = 0 };
}

-- Two days between 100 and 110, and a close at 112.
abbrev breaking : List (Candle ℤ)
breaking =
    bar (ten - 86_400) 105 110 100 105
    ∷ bar ten 105 110 100 105
    ∷ bar (ten + 300) 109 113 108 112
    ∷ []

abbrev breakout : Signal ℤ
breakout = record {
  symbol = "X";
  timeframe = m5;
  timestamp = 7;
  direction = long;
  status = SignalStatus.accepted;
  entry_order_type = EntryOrderType.stop;
  entry_price = some (pos 114);
  stop_price = some (pos 110);
  target_price = some (pos 122);
  risk_reward_ratio = some (pos 2);
  risk_percent = none;
}

is_breakout : Break.analyze_candles ny 7 "X" balance_params breaking ≡ signal breakout
unfolding Break.analyze_candles Break.decide_signal Break.analyzer_of analyze classify_trend
    classify_volatility classify_market_phase ema sma atr atr_percent relative_volume range_percent
    range_sum last_in_hours Balance.check_hours Balance.insert_date Balance.sorted_dates
    Balance.detect_balance_area Balance.breakout_of Balance.detect_breakout Out.breakout_prices
    Out.breakout_checked Out.breakout_signal et_date et_time within_trading_window
is_breakout = refl

breakout-IsSound_example :
    LastWithin ny balance_params.trading_start_time balance_params.trading_end_time breaking
    × ((atr_value : ℤ) × ((area : Balance.Area ℤ) × ((last : Candle ℤ) × (ComesFrom ny
                balance_params breaking long atr_value area last
              × HasBreakoutPrices balance_params atr_value area last breakout))))
breakout-IsSound_example = breakout-IsSound ny 7 "X" balance_params breaking breakout is_breakout

-- The second band is the densest one; six of the eight counts are asked for.
abbrev counts : List ℕ
counts = 1 ∷ 4 ∷ 1 ∷ 1 ∷ 1 ∷ []

reach_of-covers_example :
    let r = reach_of counts 6 in
    (window 1 1 counts ≡ 4)
    × (goes_on counts 6 r ≡ false)
    × (r.lo ≤ 1)
    × (1 ≤ r.hi)
    × (r.hi < 5)
    × ((6 ≤ window r.lo (r.hi + 1 - r.lo) counts) ⊎ ((r.lo ≡ 0) × (r.hi + 1 ≡ 5)))
unfolding reach_of find_poc pick_poc expand widen sum densest
reach_of-covers_example = reach_of-covers counts 6 (omega arith)

abbrev value_params : ValueParameters ℤ
value_params = record {
  operational_timeframe = some m5;
  va_buckets = 5;
  va_percent = pos 70;
  max_open_distance_atr = pos 1;
  max_va_width_atr = pos 1;
  trend_lookback = 12;
  trend_slope_threshold = pos 0;
  acceptance_bars = 1;
  daily_atr_period = 1;
  atr_period = 1;
  entry_order_type = EntryOrderType.stop;
  entry_offset_ticks = pos 1;
  entry_validity_candles = 2;
  min_risk_reward = pos 1;
  max_stop_atr = pos 10;
  stop_buffer_atr = pos 0;
  min_stop_atr = pos 0;
  risk_per_trade_pct = none;
  max_spread_pct = pos 1;
  max_atr_pct = pos 15;
  tick_size = pos 1;
  trading_start_time = record { hour = 9; minute = 30; second = 0 };
  trading_end_time = record { hour = 15; minute = 30; second = 0 };
}

abbrev pub yesterday : ℕ → List (Candle ℤ)
yesterday zero = []
yesterday (suc n) = bar (ten - 86_400 + 60 * n) 105 110 100 105 ∷ yesterday n

-- Yesterday stayed between 100 and 110; today opens at 95 and comes back to 102.
abbrev coming_back : List (Candle ℤ)
coming_back =
    bar (ten - 172_800) 105 110 100 105 ∷ yesterday 37
    ++ (bar ten 95 99 94 98 ∷ bar (ten + 300) 98 103 98 102 ∷ [])

abbrev reentry : Signal ℤ
reentry = record {
  symbol = "X";
  timeframe = m5;
  timestamp = 7;
  direction = long;
  status = SignalStatus.accepted;
  entry_order_type = EntryOrderType.stop;
  entry_price = some (pos 104);
  stop_price = some (pos 99);
  target_price = some (pos 110);
  risk_reward_ratio = some (pos 1);
  risk_percent = none;
}

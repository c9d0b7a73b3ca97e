-- ===== src/Strategies/Trendline/Params.antt =====
-- The parameters of the strategy: config.rs. The timeframe, the window and the order type are held as
-- they are read.
use daytradebot.Base.{ℕ, Option}
use daytradebot.Session.{Clock}
use daytradebot.Domain.Market.{TimeFrame}
use daytradebot.Domain.Orders.{EntryOrderType}

pub record TrendlineParameters (D : Type 0) : Type 0 where
  pub operational_timeframe : Option TimeFrame
  pub trend_lookback : ℕ
  pub pivot_bars : ℕ
  pub break_min_bars : ℕ
  pub break_min_closes_beyond_ema : ℕ
  pub break_max_age : ℕ
  pub test_tolerance_pct : D
  pub max_overshoot_atr : D
  pub signal_body_min_pct : D
  pub signal_wick_min_pct : D
  pub atr_period : ℕ
  pub entry_order_type : EntryOrderType
  pub entry_offset_ticks : D
  pub entry_validity_candles : ℕ
  pub target_r_multiple : D
  pub min_risk_reward : D
  pub max_stop_atr : D
  pub min_stop_atr : D
  pub risk_per_trade_pct : Option D
  pub max_spread_pct : D
  pub max_atr_pct : D
  pub tick_size : D
  pub trading_start_time : Clock
  pub trading_end_time : Clock

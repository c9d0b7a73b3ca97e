-- ===== src/Strategies/FirstPullback/Params.antt =====
-- The parameters of the strategy: config.rs. The timeframe, the window and the order type are held as
-- they are read.
use daytradebot.Base.{ℕ, Option}
use daytradebot.Session.{Clock}
use daytradebot.Domain.Market.{TimeFrame}
use daytradebot.Domain.Orders.{EntryOrderType}

pub record FirstPullbackParameters (D : Type 0) : Type 0 where
  pub operational_timeframe : Option TimeFrame
  pub level_lookback_candles : ℕ
  pub level_min_touches : ℕ
  pub level_touch_tolerance_pct : D
  pub atr_period : ℕ
  pub breakout_close_atr_mult : D
  pub breakout_range_mult : D
  pub breakout_volume_mult : D
  pub avg_period : ℕ
  pub pullback_min_candles : ℕ
  pub pullback_max_candles : ℕ
  pub max_retrace_pct : D
  pub pivot_lookback_candles : ℕ
  pub entry_order_type : EntryOrderType
  pub entry_offset_ticks : D
  pub entry_validity_candles : ℕ
  pub min_stop_bar_ranges : D
  pub max_stop_atr_mult : D
  pub target_r_multiple : D
  pub min_risk_reward : D
  pub risk_per_trade_pct : Option D
  pub max_spread_pct : D
  pub max_atr_pct : D
  pub tick_size : D
  pub trading_start_time : Clock
  pub trading_end_time : Clock

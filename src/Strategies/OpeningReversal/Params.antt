-- ===== src/Strategies/OpeningReversal/Params.antt =====
-- The parameters of the strategy: config.rs. The texts of the timeframe, of the window and of the order
-- type are read by `parse`, `parse_et_time` and `parse_entry_order_type`, so the parameters hold what
-- they read.
use daytradebot.Base.{ℕ, Option}
use daytradebot.Session.{Clock}
use daytradebot.Domain.Market.{TimeFrame}
use daytradebot.Domain.Orders.{EntryOrderType}

pub record StrategyParameters (D : Type 0) : Type 0 where
  pub operational_timeframe : Option TimeFrame
  pub level_zone_pct : D
  pub signal_body_min_pct : D
  pub signal_wick_min_pct : D
  pub momentum_body_pct : D
  pub momentum_bars : ℕ
  pub counter_trend_bars : ℕ
  pub counter_window : ℕ
  pub atr_period : ℕ
  pub stop_atr_mult : D
  pub monetary_stop_range_pct : D
  pub entry_order_type : EntryOrderType
  pub entry_offset_ticks : D
  pub entry_validity_candles : ℕ
  pub target_r_multiple : D
  pub min_risk_reward : D
  pub risk_per_trade_pct : Option D
  pub max_spread_pct : D
  pub max_atr_pct : D
  pub tick_size : D
  pub trading_start_time : Clock
  pub trading_end_time : Clock

-- ===== src/Strategies/ValueArea/Params.antt =====
-- The parameters of the strategy: config.rs. The timeframe, the window and the order type are held as
-- they are read.
use daytradebot.Base.{ℕ, Option}
use daytradebot.Session.{Clock}
use daytradebot.Domain.Market.{TimeFrame}
use daytradebot.Domain.Orders.{EntryOrderType}

pub record ValueParameters (D : Type 0) : Type 0 where
  pub operational_timeframe : Option TimeFrame
  pub va_buckets : ℕ
  pub va_percent : D
  pub max_open_distance_atr : D
  pub max_va_width_atr : D
  pub trend_lookback : ℕ
  pub trend_slope_threshold : D
  pub acceptance_bars : ℕ
  pub daily_atr_period : ℕ
  pub atr_period : ℕ
  pub entry_order_type : EntryOrderType
  pub entry_offset_ticks : D
  pub entry_validity_candles : ℕ
  pub min_risk_reward : D
  pub max_stop_atr : D
  pub stop_buffer_atr : D
  pub min_stop_atr : D
  pub risk_per_trade_pct : Option D
  pub max_spread_pct : D
  pub max_atr_pct : D
  pub tick_size : D
  pub trading_start_time : Clock
  pub trading_end_time : Clock

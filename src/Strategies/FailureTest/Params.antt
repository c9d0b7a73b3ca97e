-- ===== src/Strategies/FailureTest/Params.antt =====
-- The parameters of the strategy: config.rs. The timeframe, the window and the order type are held as
-- they are read; a time that cannot be read is none. The text of the order type is read
-- in two ways: as a type, and as whether it is `market_next_open` to the letter.
use daytradebot.Base.{ℕ, Bool, Option}
use daytradebot.Domain.Market.{TimeFrame}
use daytradebot.Domain.Orders.{EntryOrderType}

pub record FailureParameters (D : Type 0) : Type 0 where
  pub operational_timeframe : Option TimeFrame
  pub level_lookback_candles : ℕ
  pub level_min_touches : ℕ
  pub level_touch_tolerance_pct : D
  pub level_min_age_candles : ℕ
  pub keltner_ema_period : ℕ
  pub keltner_atr_mult : D
  pub atr_period : ℕ
  pub climax_lookback_candles : ℕ
  pub overextension_atr_mult : D
  pub macd_fast_sma : ℕ
  pub macd_slow_sma : ℕ
  pub macd_signal_sma : ℕ
  pub macd_lookback_candles : ℕ
  pub climax_bar_atr_mult : D
  pub probe_max_bars : ℕ
  pub probe_max_atr_mult : D
  pub signal_close_min_position : D
  pub entry_order_type : EntryOrderType
  pub is_market_next_open : Bool
  pub entry_offset_ticks : D
  pub entry_validity_candles : ℕ
  pub stop_jitter_atr_mult : D
  pub min_stop_bar_ranges : D
  pub max_stop_atr_mult : D
  pub target_r_multiple : D
  pub min_risk_reward : D
  pub allow_reentry : Bool
  pub reentry_window_candles : ℕ
  pub risk_per_trade_pct : Option D
  pub max_spread_pct : D
  pub max_atr_pct : D
  pub tick_size : D
  pub trading_start_time : Option ℕ
  pub trading_end_time : Option ℕ

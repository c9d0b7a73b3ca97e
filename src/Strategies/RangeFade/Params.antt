-- ===== src/Strategies/RangeFade/Params.antt =====
-- The parameters of the strategy: config.rs. The timeframe, the windows and the order type are held as
-- they are read.
use daytradebot.Base.{ℕ, Bool, Option}
use daytradebot.Session.{Clock}
use daytradebot.Domain.Market.{TimeFrame}
use daytradebot.Domain.Orders.{EntryOrderType}

pub record FadeParameters (D : Type 0) : Type 0 where
  pub operational_timeframe : Option TimeFrame
  pub structure_lookback : ℕ
  pub max_ema_slope_pct_per_bar : D
  pub daily_atr_period : ℕ
  pub max_day_range_atr_mult : D
  pub max_extension_atr_mult : D
  pub use_ema_side_rule : Bool
  pub ema_side_lookback : ℕ
  pub midday_start_time : Clock
  pub midday_end_time : Clock
  pub barb_wire_bars : ℕ
  pub barb_wire_overlap_pct : D
  pub barb_wire_doji_body_pct : D
  pub signal_body_min_pct : D
  pub signal_wick_min_pct : D
  pub atr_period : ℕ
  pub entry_order_type : EntryOrderType
  pub entry_offset_ticks : D
  pub entry_validity_candles : ℕ
  pub target_r_multiple : D
  pub min_risk_reward : D
  pub risk_per_trade_pct : Option D
  pub max_spread_pct : D
  pub max_atr_pct : D
  pub tick_size : D
  pub trading_start_time : Clock
  pub trading_end_time : Clock

-- ===== src/Strategies/BalanceArea/Params.antt =====
-- The parameters of the strategy: config.rs. The timeframe, the window and the order type are held as
-- they are read.
use daytradebot.Base.{ℕ, Option}
use daytradebot.Session.{Clock}
use daytradebot.Domain.Market.{TimeFrame}
use daytradebot.Domain.Orders.{EntryOrderType}

pub record BalanceParameters (D : Type 0) : Type 0 where
  pub operational_timeframe : Option TimeFrame
  pub balance_lookback_candles : ℕ
  pub balance_max_width_pct : D
  pub balance_max_width_atr_mult : D
  pub atr_period : ℕ
  pub entry_order_type : EntryOrderType
  pub entry_offset_ticks : D
  pub entry_validity_candles : ℕ
  pub stop_buffer_atr_mult : D
  pub max_stop_atr_mult : D
  pub target_r_multiple : D
  pub min_risk_reward : D
  pub risk_per_trade_pct : Option D
  pub max_spread_pct : D
  pub max_atr_pct : D
  pub tick_size : D
  pub trading_start_time : Clock
  pub trading_end_time : Clock

-- ===== src/Strategies/Low2M2sShort/Params.antt =====
-- The parameters of the strategy: config.rs. The timeframe, the window and the order type are held as
-- they are read; the timeframes of the context and of the day, which no code reads, are left out.
use daytradebot.Base.{ℕ, String, Option}
use daytradebot.Session.{Clock}
use daytradebot.Domain.Market.{TimeFrame}
use daytradebot.Domain.Orders.{EntryOrderType}

pub record Low2Parameters (D : Type 0) : Type 0 where
  pub operational_timeframe : Option TimeFrame
  pub min_candles_below_ema20 : ℕ
  pub ema_context_period : ℕ
  pub sma_context_period : ℕ
  pub max_pullback_candles : ℕ
  pub min_signal_body_ratio : D
  pub signal_close_position : String
  pub entry_offset_ticks : D
  pub stop_offset_ticks : D
  pub reward_multiple : D
  pub entry_order_type : EntryOrderType
  pub entry_validity_candles : ℕ
  pub max_spread_pct : D
  pub max_atr_pct : D
  pub min_risk_reward : D
  pub risk_per_trade_pct : Option D
  pub tick_size : D
  pub trading_start_time : Clock
  pub trading_end_time : Clock

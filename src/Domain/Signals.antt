-- ===== src/Domain/Signals.antt =====
-- Signals and the reasons for refusing them: crates/trader-domain/src/signals.rs. The strategy's
-- identity, the texts and the json snapshot of a signal are left out.
use daytradebot.Base.{ℕ, String, Option}
use daytradebot.Domain.Market.{TimeFrame}
use daytradebot.Domain.Orders.{EntryOrderType}

pub data Direction : Type 0 where
  long short : Direction

-- `Direction::opposite`
abbrev pub opposite : Direction → Direction
opposite long = short
opposite short = long

pub data SignalStatus : Type 0 where
  accepted rejected pending expired : SignalStatus

pub data RejectionReason : Type 0 where
  no_context market_lateral high_volatility low_volatility poor_risk_reward : RejectionReason
  high_spread outside_trading_hours daily_loss_limit_reached : RejectionReason
  max_trades_reached consecutive_losses incomplete_setup setup_invalidated : RejectionReason
  weak_confirmation position_already_open not_overextended climax_in_progress : RejectionReason
  support_level_not_found support_not_tested_enough support_already_broken : RejectionReason
  level_too_recent no_probe probe_too_deep probe_too_long no_recovery_close : RejectionReason
  weak_recovery_bar entry_expired stop_within_noise stop_too_wide : RejectionReason
  reentry_disabled resistance_level_not_found weak_breakout : RejectionReason
  breakout_already_taken pullback_too_deep pullback_too_long breakout_failed : RejectionReason
  yesterday_level_not_tested momentum_against no_balance_area not_a_range_day : RejectionReason
  breakout_too_strong wrong_side_of_ema midday_midrange barb_wire : RejectionReason
  open_inside_value_area no_value_area_reentry value_area_too_wide : RejectionReason
  open_too_far_from_value trend_against_traversal no_trend_to_reverse : RejectionReason
  no_trendline_break break_without_momentum break_too_old no_extreme_test : RejectionReason
  reversal_nullified stop_missing invalid_quantity insufficient_buying_power : RejectionReason
  notional_above_liquidity_cap not_in_paper_mode broker_error unknown : RejectionReason

pub record Signal (D : Type 0) : Type 0 where
  pub symbol : String
  pub timeframe : TimeFrame
  pub timestamp : ℕ
  pub direction : Direction
  pub status : SignalStatus
  pub entry_order_type : EntryOrderType
  pub entry_price : Option D
  pub stop_price : Option D
  pub target_price : Option D
  pub risk_reward_ratio : Option D
  pub risk_percent : Option D

-- What a strategy answers: nothing, a signal, or the reason of a refusal.
pub data SignalResult (D : Type 0) : Type 0 where
  nothing : SignalResult D
  signal : Signal D → SignalResult D
  refused : RejectionReason → SignalResult D

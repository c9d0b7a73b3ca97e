-- ===== src/Tests.antt =====
-- The data of the tests: whole numbers as decimals, a New York four hours behind UTC, and a morning
-- within the regular hours.
mod Risk
mod Broker
mod Run
mod Fills
mod Market
mod Live
mod Worker
mod Reversal
mod Metrics
mod Lifecycle
mod Pullbacks
mod Areas
mod Breaks
mod Lines
mod Primed
use daytradebot.Base.{ℕ, ◌+◌, ◌-◌, ◌*◌, true, none, some, List, [], ◌∷◌, Option}
use daytradebot.Decimal.Integers.{ℤ, pos, integers}
use daytradebot.Session.{NewYork}
use daytradebot.Domain.Market.{Candle, m5, MarketContext, uptrend, normal, regular}
use daytradebot.Domain.Signals.{Signal, long, SignalStatus}
use daytradebot.Domain.Orders.{EntryOrderType}
use daytradebot.Domain.Trades.{paper}
use daytradebot.Risk.{RiskConfig, RiskState}
use daytradebot.Broker.{SimulatedBrokerConfig, per_trade}

abbrev pub ny : NewYork
ny ts = ts - 4 * 3600

-- Ten in the morning of a day in New York.
abbrev pub ten : ℕ
ten = 20_000 * 86_400 + 14 * 3600

abbrev pub bar : ℕ → ℕ → ℕ → ℕ → ℕ → Candle ℤ
bar ts opening top bottom close = record {
  symbol = "X";
  timeframe = m5;
  timestamp = ts;
  «open» = pos opening;
  high = pos top;
  low = pos bottom;
  close = pos close;
  volume = pos 500;
}

abbrev pub series : List (Candle ℤ)
series = bar ten 99 101 99 100 ∷ bar (ten + 300) 100 102 99 101 ∷ []

abbrev pub context : MarketContext ℤ
context = record {
  symbol = "X";
  timeframe = m5;
  timestamp = ten + 300;
  trend_state = uptrend;
  volatility_regime = normal;
  market_phase = regular;
  ema_20 = none;
  ema_50 = none;
  sma_200 = none;
  atr_14 = some (pos 1);
  volume_relative = none;
  range_percent = none;
  is_tradeable = true;
}

abbrev pub entry_signal : Signal ℤ
entry_signal = record {
  symbol = "X";
  timeframe = m5;
  timestamp = ten + 300;
  direction = long;
  status = SignalStatus.accepted;
  entry_order_type = EntryOrderType.stop;
  entry_price = some (pos 102);
  stop_price = some (pos 100);
  target_price = some (pos 108);
  risk_reward_ratio = none;
  risk_percent = none;
}

-- One per cent of risk; the ceilings by dollars and by liquidity are on.
abbrev pub risk_config : RiskConfig ℤ
risk_config = record {
  trading_mode = paper;
  risk_per_trade_pct = pos 1;
  max_daily_loss_pct = pos 2;
  max_trades_per_day = 3;
  max_consecutive_losses = 3;
  min_risk_reward = pos 2;
  max_spread_pct = pos 1;
  max_atr_pct = pos 1;
  trading_start_time_et = record { hour = 9; minute = 30; second = 0 };
  trading_end_time_et = record { hour = 16; minute = 0; second = 0 };
  entry_overshoot_tolerance = pos 1;
  max_notional_multiple = pos 1;
  max_notional_usd = some (pos 4080);
  capital_fraction = pos 1;
  max_pct_of_median_bar_notional = some (pos 10);
  liquidity_lookback_bars = 2;
}

abbrev pub quiet_day : RiskState ℤ
quiet_day = record { daily_pnl = pos 0; daily_trades = 1; consecutive_losses = 0 }

abbrev pub broker_config : SimulatedBrokerConfig ℤ
broker_config = record {
  initial_cash = pos 10_000;
  commission = per_trade (pos 1);
  limit_fill_haircut_pct = pos 0;
  slippage_pct = pos 0;
  entry_validity_candles = 2;
  entry_overshoot_tolerance = pos 1;
}

-- ===== src/Risk/Config.antt =====
-- The configuration, the capital of one instance and the ceiling of one position's notional.
use daytradebot.Base.{ℕ, Option, none, some, if◌then◌else◌}
use daytradebot.Decimal.{Decimal, ◌⊗◌, ◌⊘◌, lt}
use daytradebot.Session.{Clock}
use daytradebot.Domain.Trades.{TradingMode, paper}

pub record RiskConfig (D : Type 0) : Type 0 where
  pub trading_mode : TradingMode
  pub risk_per_trade_pct : D
  pub max_daily_loss_pct : D
  pub max_trades_per_day : ℕ
  pub max_consecutive_losses : ℕ
  pub min_risk_reward : D
  pub max_spread_pct : D
  pub max_atr_pct : D
  pub trading_start_time_et : Clock
  pub trading_end_time_et : Clock
  pub entry_overshoot_tolerance : D
  pub max_notional_multiple : D
  pub max_notional_usd : Option D
  pub capital_fraction : D
  pub max_pct_of_median_bar_notional : Option D
  pub liquidity_lookback_bars : ℕ

pub data TetoDeNotional : Type 0 where
  capital absoluto liquidez : TetoDeNotional

module _ {D : Type 0} ⦃d : Decimal D⦄ where
  -- `RiskConfig::default`
  unfoldable pub default_config : RiskConfig D
  default_config = record {
    trading_mode = paper;
    risk_per_trade_pct = d.of_ℕ 1;
    max_daily_loss_pct = d.of_ℕ 2;
    max_trades_per_day = 3;
    max_consecutive_losses = 3;
    min_risk_reward = d.of_ℕ 2;
    max_spread_pct = d.of_ℕ 5 ⊘ d.of_ℕ 100;
    max_atr_pct = d.of_ℕ 15 ⊘ d.of_ℕ 10;
    trading_start_time_et = record { hour = 9; minute = 30; second = 0 };
    trading_end_time_et = record { hour = 16; minute = 0; second = 0 };
    entry_overshoot_tolerance = d.of_ℕ 25 ⊘ d.of_ℕ 100;
    max_notional_multiple = d.unity;
    max_notional_usd = none;
    capital_fraction = d.unity;
    max_pct_of_median_bar_notional = none;
    liquidity_lookback_bars = 600;
  }

  -- `RiskConfig::capital_efetivo`
  unfoldable pub capital_efetivo : RiskConfig D → D → D
  capital_efetivo cfg money = d.round_cents (money ⊗ cfg.capital_fraction)

  -- A ceiling and the rule that sets it, after one more rule.
  abbrev pub lower : D → TetoDeNotional → D × TetoDeNotional → D × TetoDeNotional
  lower cap rule (teto, qual) = if lt cap teto then (cap, rule) else (teto, qual)

  unfoldable pub cap_absoluto : Option D → D × TetoDeNotional → D × TetoDeNotional
  cap_absoluto none teto = teto
  cap_absoluto (some usd) teto = lower usd absoluto teto

  unfoldable pub cap_liquidez : Option D → Option D → D × TetoDeNotional → D × TetoDeNotional
  cap_liquidez none mediana teto = teto
  cap_liquidez (some pct) none teto = teto
  cap_liquidez (some pct) (some mediana) teto = lower (mediana ⊗ pct ⊘ d.of_ℕ 100) liquidez teto

  -- `RiskConfig::teto_de_notional`
  unfoldable pub teto_de_notional : RiskConfig D → D → Option D → D × TetoDeNotional
  teto_de_notional cfg money mediana = cap_liquidez cfg.max_pct_of_median_bar_notional mediana (
      cap_absoluto cfg.max_notional_usd
        (capital_efetivo cfg money ⊗ cfg.max_notional_multiple, capital))

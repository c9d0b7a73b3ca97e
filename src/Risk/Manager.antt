-- ===== src/Risk/Manager.antt =====
-- `RiskManager`: the checks of a signal in the order of the source, and the state of the day.
use daytradebot.Base.{
  ℕ, ◌+◌, Bool, true, false, not, ◌&&◌, Option, none, some, List, leb, if◌then◌else◌,
}
use daytradebot.Decimal.{Decimal, ◌⊕◌, ◌⊖◌, ◌⊗◌, ◌⊘◌, le, lt, min, is_zero}
use daytradebot.Session.{NewYork, within_trading_window}
use daytradebot.Domain.Market.{Candle, MarketContext, Quote, VolatilityRegime, high, spread_pct}
use daytradebot.Domain.Signals.{Direction, long, short, RejectionReason, Signal}
use daytradebot.Domain.Trades.{is_real}
use daytradebot.Risk.Config.{
  RiskConfig, TetoDeNotional, liquidez, capital_efetivo, teto_de_notional,
}
use daytradebot.Risk.Liquidity.{median_bar_notional}

pub record RiskState (D : Type 0) : Type 0 where
  pub daily_pnl : D
  pub daily_trades : ℕ
  pub consecutive_losses : ℕ

pub data RiskCheck (D : Type 0) : Type 0 where
  approved : D → D → RiskCheck D
  rejected : RejectionReason → RiskCheck D

-- A stretch of `validate`: it returns early with a reason, or goes on with a value.
pub data Check (A : Type 0) : Type 0 where
  go_on : A → Check A
  reject : RejectionReason → Check A

infixl 5 ◌>>=◌ ◌>>◌
abbrev pub ◌>>=◌ : {A B : Type 0} → Check A → (A → Check B) → Check B
go_on a >>= f = f a
reject r >>= f = reject r

abbrev pub ◌>>◌ : {B : Type 0} → Check (Unit {0}) → Check B → Check B
m >> k = m >>= λ _. k

abbrev pub reject_if : Bool → RejectionReason → Check (Unit {0})
reject_if true r = reject r
reject_if false r = go_on tt

pub record Prices (D : Type 0) : Type 0 where
  pub entry : D
  pub stop : D
  pub target : D

abbrev is_high : VolatilityRegime → Bool
is_high high = true
is_high _ = false

abbrev too_small : TetoDeNotional → RejectionReason
too_small liquidez = RejectionReason.notional_above_liquidity_cap
too_small _ = RejectionReason.insufficient_buying_power

module _ {D : Type 0} ⦃d : Decimal D⦄ where
  abbrev pub new_day : RiskState D
  new_day = record { daily_pnl = d.nought; daily_trades = 0; consecutive_losses = 0 }

  -- The mode, the hours and the limits of the day.
  unfoldable pub day_gates :
      RiskConfig D → NewYork → MarketContext D → RiskState D → D → Check (Unit {0})
  day_gates cfg ny ctx state money = do
    reject_if (is_real cfg.trading_mode) RejectionReason.not_in_paper_mode
    reject_if
        (not (
          within_trading_window ny ctx.timestamp cfg.trading_start_time_et cfg.trading_end_time_et))
        RejectionReason.outside_trading_hours
    reject_if (le state.daily_pnl (d.neg money ⊗ cfg.max_daily_loss_pct ⊘ d.of_ℕ 100))
        RejectionReason.daily_loss_limit_reached
    reject_if (leb cfg.max_trades_per_day state.daily_trades) RejectionReason.max_trades_reached
    reject_if (leb cfg.max_consecutive_losses state.consecutive_losses)
        RejectionReason.consecutive_losses

  unfoldable pub prices_of : Signal D → Check (Prices D)
  prices_of signal = elim signal.entry_price [
    | none ↦ reject RejectionReason.stop_missing
    | some e ↦ elim signal.stop_price [
      | none ↦ reject RejectionReason.stop_missing
      | some s ↦ elim signal.target_price [
        | none ↦ reject RejectionReason.stop_missing
        | some t ↦ go_on (record { entry = e; stop = s; target = t })
      ]
    ]
  ]

  abbrev exceeds : Option D → D → Bool
  exceeds none limit = false
  exceeds (some v) limit = lt limit v

  abbrev pub spread_of : Option (Quote D) → Option D
  spread_of none = none
  spread_of (some q) = some (spread_pct q)

  -- The market's context and the spread.
  unfoldable pub market_gates : RiskConfig D → MarketContext D → Option (Quote D) → Check (Unit {0})
  market_gates cfg ctx quote = do
    reject_if (not ctx.is_tradeable) RejectionReason.no_context
    reject_if (is_high ctx.volatility_regime) RejectionReason.high_volatility
    reject_if (exceeds ctx.atr_14 cfg.max_atr_pct) RejectionReason.high_volatility
    reject_if (exceeds (spread_of quote) cfg.max_spread_pct) RejectionReason.high_spread

  abbrev pub sides_ok : Direction → Prices D → Bool
  sides_ok long p = lt p.stop p.entry && lt p.entry p.target
  sides_ok short p = lt p.target p.entry && lt p.entry p.stop

  abbrev pub risk_distance : Prices D → D
  risk_distance p = d.abs (p.entry ⊖ p.stop)

  abbrev pub risk_reward : Prices D → D
  risk_reward p = d.abs (p.target ⊖ p.entry) ⊘ risk_distance p

  unfoldable pub price_gates : RiskConfig D → Direction → Prices D → Check (Unit {0})
  price_gates cfg direction p = do
    reject_if (not (sides_ok direction p)) RejectionReason.stop_missing
    reject_if (is_zero (risk_distance p)) RejectionReason.poor_risk_reward
    reject_if (lt (risk_reward p) cfg.min_risk_reward) RejectionReason.poor_risk_reward

  abbrev pub risk_budget : RiskConfig D → D → D
  risk_budget cfg money = capital_efetivo cfg money ⊗ cfg.risk_per_trade_pct ⊘ d.of_ℕ 100

  abbrev pub qty_by_risk : RiskConfig D → D → Prices D → D
  qty_by_risk cfg money p = d.trunc (risk_budget cfg money ⊘ risk_distance p)

  -- The median for the liquidity cap: none needed, or measured, or the signal is refused.
  unfoldable pub measure_liquidity : RiskConfig D → List (Candle D) → Check (Option D)
  measure_liquidity cfg candles = elim cfg.max_pct_of_median_bar_notional [
    | none ↦ go_on none
    | some pct ↦ elim (median_bar_notional candles cfg.liquidity_lookback_bars) [
      | none ↦ reject RejectionReason.notional_above_liquidity_cap
      | some mediana ↦ go_on (some mediana)
    ]
  ]

  abbrev pub size_under : RiskConfig D → D → Prices D → Option D → D
  size_under cfg money p mediana =
      min (qty_by_risk cfg money p) (d.trunc ((teto_de_notional cfg money mediana).0 ⊘ p.entry))

  unfoldable pub sizing : RiskConfig D → D → List (Candle D) → Prices D → Check D
  sizing cfg money candles p = do
    reject_if (le (qty_by_risk cfg money p) d.nought) RejectionReason.invalid_quantity
    mediana ← measure_liquidity cfg candles
    reject_if (lt (size_under cfg money p mediana) d.unity)
        (too_small (teto_de_notional cfg money mediana).1)
    go_on (size_under cfg money p mediana)

  -- All the gates and the size, up to the answer.
  unfoldable pub checked :
      RiskConfig D
      → NewYork
      → Signal D
      → MarketContext D
      → Option (Quote D)
      → RiskState D
      → D
      → List (Candle D)
      → Check (Prices D × D)
  checked cfg ny signal ctx quote state money candles = do
    day_gates cfg ny ctx state money
    p ← prices_of signal
    market_gates cfg ctx quote
    price_gates cfg signal.direction p
    size ← sizing cfg money candles p
    go_on (p, size)

  abbrev answer : Check (Prices D × D) → RiskCheck D
  answer (go_on (p, size)) = approved size (risk_distance p ⊗ size)
  answer (reject r) = rejected r

  -- `RiskManager::validate`
  unfoldable pub validate :
      RiskConfig D
      → NewYork
      → Signal D
      → MarketContext D
      → Option (Quote D)
      → RiskState D
      → D
      → List (Candle D)
      → RiskCheck D
  validate cfg ny signal ctx quote state money candles =
      answer (checked cfg ny signal ctx quote state money candles)

  -- `RiskManager::update_state`
  unfoldable pub update_state : RiskState D → D → RiskState D
  update_state state pnl = record state {
    daily_pnl = state.daily_pnl ⊕ pnl;
    consecutive_losses = if lt pnl d.nought then state.consecutive_losses + 1 else 0;
  }

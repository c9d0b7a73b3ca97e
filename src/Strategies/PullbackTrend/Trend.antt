-- ===== src/Strategies/PullbackTrend/Trend.antt =====
-- The context in which a purchase is sought: context.rs. The context's json holds no `last_close`
-- where `MarketContextAnalyzer` makes it, so that value is an argument.
use daytradebot.Base.{
  ℕ, ◌+◌, Bool, true, false, not, Option, none, some, List, [], ◌∷◌, reverse, if◌then◌else◌,
}
use daytradebot.Decimal.{Decimal, lt}
use daytradebot.Indicators.{ema}
use daytradebot.Context.{is_high, is_regular}
use daytradebot.Domain.Market.{Candle, MarketContext, TrendState, uptrend}
use daytradebot.Domain.Signals.{RejectionReason}
use daytradebot.Risk.{Check, reject_if, ◌>>◌}

abbrev pub is_uptrend : TrendState → Bool
is_uptrend uptrend = true
is_uptrend _ = false

module _ {D : Type 0} ⦃d : Decimal D⦄ where
  abbrev pub below : Option D → Option D → Bool
  below (some close) (some average) = lt close average
  below _ _ = false

  -- `check_context`
  unfoldable pub check_uptrend : MarketContext D → Option D → Check (Unit {0})
  check_uptrend ctx last_close = do
    reject_if (not (is_uptrend ctx.trend_state)) RejectionReason.no_context
    reject_if (is_high ctx.volatility_regime) RejectionReason.high_volatility
    reject_if (not (is_regular ctx.market_phase)) RejectionReason.outside_trading_hours
    reject_if (below last_close ctx.ema_20) RejectionReason.no_context

  -- Back from the latest candle, the list being the newest first.
  unfoldable pub closes_above : List (Candle D) → ℕ → ℕ
  closes_above [] ema_period = 0
  closes_above (c ∷ older) ema_period =
      let rest = closes_above older ema_period in
      elim (ema (reverse (c ∷ older)) ema_period) [
        | none ↦ 0
        | some ema_value ↦ if lt ema_value c.close then rest + 1 else 0
      ]

  unfoldable pub consecutive_closes_above_ema : List (Candle D) → ℕ → ℕ
  consecutive_closes_above_ema candles ema_period = closes_above (reverse candles) ema_period

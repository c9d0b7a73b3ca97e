-- ===== src/Strategies/Low2M2sShort/Trend.antt =====
-- The context in which a sale is sought: context.rs. The context's json holds no `last_close`
-- where `MarketContextAnalyzer` makes it, so that value is an argument.
use daytradebot.Base.{
  ℕ, ◌+◌, Bool, true, false, not, Option, none, some, List, [], ◌∷◌, reverse, if◌then◌else◌,
}
use daytradebot.Decimal.{Decimal, lt}
use daytradebot.Indicators.{ema}
use daytradebot.Context.{is_high, is_regular}
use daytradebot.Domain.Market.{Candle, MarketContext, TrendState, downtrend}
use daytradebot.Domain.Signals.{RejectionReason}
use daytradebot.Risk.{Check, reject_if, ◌>>◌}

abbrev pub is_downtrend : TrendState → Bool
is_downtrend downtrend = true
is_downtrend _ = false

module _ {D : Type 0} ⦃d : Decimal D⦄ where
  abbrev pub above : Option D → Option D → Bool
  above (some close) (some average) = lt average close
  above _ _ = false

  -- `check_context`
  unfoldable pub check_downtrend : MarketContext D → Option D → Check (Unit {0})
  check_downtrend ctx last_close = do
    reject_if (not (is_downtrend ctx.trend_state)) RejectionReason.no_context
    reject_if (is_high ctx.volatility_regime) RejectionReason.high_volatility
    reject_if (not (is_regular ctx.market_phase)) RejectionReason.outside_trading_hours
    reject_if (above last_close ctx.ema_20) RejectionReason.no_context

  -- Back from the latest candle, the list being the newest first.
  unfoldable pub closes_below : List (Candle D) → ℕ → ℕ
  closes_below [] ema_period = 0
  closes_below (c ∷ older) ema_period =
      let rest = closes_below older ema_period in
      elim (ema (reverse (c ∷ older)) ema_period) [
        | none ↦ 0
        | some ema_value ↦ if lt c.close ema_value then rest + 1 else 0
      ]

  unfoldable pub consecutive_closes_below_ema : List (Candle D) → ℕ → ℕ
  consecutive_closes_below_ema candles ema_period = closes_below (reverse candles) ema_period

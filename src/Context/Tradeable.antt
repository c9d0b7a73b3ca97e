-- ===== src/Context/Tradeable.antt =====
-- When the market is tradeable.
use daytradebot.Base.{
  ℕ, ◌%◌, ◌≤◌, ◌≡◌, ◌↔◌, refl, subst, String, Bool, true, false, not, ◌&&◌, some, none, Option,
  Option-cases, Bool-cases, List, get_last?, ◌⊎◌, inl, inr, arith,
}
use daytradebot.Decimal.{Decimal, lt, ◌≺◌}
use daytradebot.Domain.Market.{
  TimeFrame, Candle, MarketContext, TrendState, VolatilityRegime, regular, uptrend, downtrend,
}
use daytradebot.Indicators.{ema, sma, atr_percent}
use daytradebot.Context.{
  ContextAnalyzerConfig, is_trending, is_high, is_regular, classify_market_phase, classify_trend,
  classify_volatility, last_context, analyze,
}

-- The phase is regular exactly from 13:30 to the end of the minute 21:00 UTC.
pub classify_market_phase_iff :
    (ts : ℕ)
    → (classify_market_phase ts ≡ regular) ↔ ((48_600 ≤ ts % 86_400) × (ts % 86_400 ≤ 75_659))
unfolding classify_market_phase
classify_market_phase_iff ts = (λ h. (ground arith, ground arith), λ h. ground arith)

-- What makes three tests hold together.
three_hold : (a b c : Bool) → (a && not b && c) ≡ true → (a ≡ true) × (b ≡ false) × (c ≡ true)
three_hold a b c h = (ground arith, ground arith, ground arith)

module _ {D : Type 0} ⦃d : Decimal D⦄ where
  -- A value that is under a bound, or over it, where it is there.
  abbrev pub Below : D → Option D → Type 0
  Below bound none = Unit
  Below bound (some v) = v ≺ bound

  abbrev pub Above : D → Option D → Type 0
  Above bound none = Unit
  Above bound (some v) = bound ≺ v

  -- A close over a fast average that lies over the slow one, or a close under one that lies under it.
  abbrev pub IsTrend : D → Option D → Option D → TrendState → Type 0
  IsTrend close fast slow t =
      (v : D) × ((fast ≡ some v)
        × (((t ≡ uptrend) × (v ≺ close) × Below v slow)
            ⊎ ((t ≡ downtrend) × (close ≺ v) × Above v slow)))

  classify_trend-IsTrend :
      (close : D) (fast slow : Option D)
      → is_trending (classify_trend close fast slow) ≡ true
      → IsTrend close fast slow (classify_trend close fast slow)
  unfolding classify_trend
  classify_trend-IsTrend close none slow h = cc
  classify_trend-IsTrend close (some v) none h = elim (Bool-cases (lt v close)) [
    | inl up ↦ (v, (refl, inl (ground arith, ground arith, tt)))
    | inr e ↦ (v, (refl, inr (ground arith, ground arith, tt)))
  ]
  classify_trend-IsTrend close (some v) (some s) h = elim (Bool-cases (lt v close && lt s v)) [
    | inl up ↦ (v, (refl, inl (ground arith, ground arith, ground arith)))
    | inr e ↦ (v, (refl, inr (ground arith, ground arith, ground arith)))
  ]

  -- The average range is unknown, or known and under the high threshold.
  abbrev pub IsCalm : D → Option D → VolatilityRegime → Type 0
  IsCalm threshold range r =
      ((range ≡ none) × (r ≡ VolatilityRegime.unknown))
      ⊎ ((v : D) × ((range ≡ some v) × (v ≺ threshold)))

  classify_volatility-IsCalm :
      (range : Option D) (threshold least : D)
      → is_high (classify_volatility range threshold least) ≡ false
      → IsCalm threshold range (classify_volatility range threshold least)
  unfolding classify_volatility
  classify_volatility-IsCalm none threshold least h = inl (refl, refl)
  classify_volatility-IsCalm (some v) threshold least h = inr (v, (refl, ground arith))

  -- What a tradeable context says of its series, and of the last candle.
  abbrev pub IsTradeable :
      ContextAnalyzerConfig D → List (Candle D) → MarketContext D → Candle D → Type 0
  IsTradeable cfg cs ctx last =
      (ctx.timestamp ≡ last.timestamp)
      × (48_600 ≤ last.timestamp % 86_400)
      × (last.timestamp % 86_400 ≤ 75_659)
      × (ctx.market_phase ≡ regular)
      × IsTrend last.close (ema cs cfg.ema_period) (sma cs cfg.sma_period) ctx.trend_state
      × IsCalm cfg.high_volatility_threshold_pct (atr_percent cs cfg.atr_period)
          ctx.volatility_regime

  last_context-IsTradeable :
      (cfg : ContextAnalyzerConfig D) (symbol : String) (tf : TimeFrame) (cs : List (Candle D))
      (last : Candle D)
      → (last_context cfg symbol tf cs last).is_tradeable ≡ true
      → IsTradeable cfg cs (last_context cfg symbol tf cs last) last
  last_context-IsTradeable cfg symbol tf cs last h =
      let ctx = last_context cfg symbol tf cs last in
      let (trends, calm, hours) =
        three_hold (is_trending ctx.trend_state) (is_high ctx.volatility_regime)
          (is_regular ctx.market_phase) h in
      let phase : classify_market_phase last.timestamp ≡ regular = ground arith in
      let (late, early) = (classify_market_phase_iff last.timestamp).0 phase in
      (
        refl,
        late,
        early,
        phase,
        classify_trend-IsTrend last.close (ema cs cfg.ema_period) (sma cs cfg.sma_period) trends,
        classify_volatility-IsCalm (atr_percent cs cfg.atr_period) cfg.high_volatility_threshold_pct
            cfg.low_volatility_threshold_pct calm,
      )

  -- A context that is analysed as tradeable has the instant of the last candle of its series, which
  -- lies between 13:30 and the end of the minute 21:00 UTC. In an uptrend the last close is over the
  -- fast average and that over the slow one, where this is known, in a downtrend they are under each
  -- other, and there is no other trend. The volatility is unknown, or under the high threshold.
  pub analyze-IsTradeable :
      (cfg : ContextAnalyzerConfig D) (symbol : String) (tf : TimeFrame) (cs : List (Candle D))
      {ctx : MarketContext D}
      → analyze cfg symbol tf cs ≡ some ctx
      → ctx.is_tradeable ≡ true
      → (last : Candle D) × ((get_last? cs ≡ some last) × IsTradeable cfg cs ctx last)
  unfolding analyze
  analyze-IsTradeable cfg symbol tf cs {ctx = ctx} h t = elim (Option-cases (get_last? cs)) [
    | inl e ↦ cc (rw (e, analyze) at h)
    | inr (last, e) ↦
        let same : last_context cfg symbol tf cs last ≡ ctx = cc (rw (e, analyze) at h) in
        (
          last,
          (
            e,
            subst (λ c. IsTradeable cfg cs c last) same
                (last_context-IsTradeable cfg symbol tf cs last (cc (same, t))),
          ),
        )
  ]

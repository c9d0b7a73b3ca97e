-- ===== src/Strategies/PullbackTrend/Soundness.antt =====
-- What holds of a signal of the strategy.
use daytradebot.Base.{
  ℕ, zero, suc, ◌≡◌, ◌≢◌, ◌≤◌, refl, sym, ◌∙◌, subst, String, true, Option, none, some, List, [],
  ◌∷◌, length, reverse, Option-cases, Bool-cases, inl, inr, arith, ltb,
}
use daytradebot.Decimal.{Decimal, IsOrdered, IsRounded, ◌⊕◌, ◌⊖◌, ◌⊗◌, ◌≼◌, ◌≺◌, le_of_lt}
use daytradebot.Context.{analyze as analyze_context}
use daytradebot.Domain.Market.{Candle, MarketContext, TimeFrame, uptrend, regular, high}
use daytradebot.Domain.Signals.{Signal, signal, RejectionReason, long}
use daytradebot.Risk.{go_on, Prices, prices_of}
use daytradebot.Strategies.Checks.{
  needed, answer-signal, bind-go_on, reject_if-go_on, needed-go_on, built-prices,
}
use daytradebot.Strategies.PullbackTrend.Params.{PullbackParameters}
use daytradebot.Strategies.PullbackTrend.Trend.{check_uptrend, consecutive_closes_above_ema}
use daytradebot.Strategies.PullbackTrend.Setup.{
  PullbackSetup, is_bullish_signal_bar, priced_long, setup_at, search_back, detect_pullback,
}
use daytradebot.Strategies.PullbackTrend.Analysis.{
  build_signal, analyzer_of, last_close, decide_signal, analyze_candles,
}

module _ {D : Type 0} ⦃d : Decimal D⦄ where
  -- A setup priced from one of the candles, with a positive risk.
  abbrev FromBar : PullbackParameters D → PullbackSetup D → Type 0
  FromBar params s =
      (bar : Candle D) × ((older : List (Candle D)) × ((is_bullish_signal_bar bar params ≡ true)
          × (s ≡ priced_long bar older params)
          × (d.nought ≺ s.entry_price ⊖ s.stop_price)))

  setup_at-FromBar :
      (bar : Candle D) (older : List (Candle D)) (params : PullbackParameters D)
      (s : PullbackSetup D)
      → setup_at bar older params ≡ some s
      → FromBar params s
  unfolding setup_at
  setup_at-FromBar bar older params s h = (bar, (older, (ground arith, ground arith, ground arith)))

  search_back-FromBar :
      (n : ℕ) (candles : List (Candle D)) (params : PullbackParameters D) (s : PullbackSetup D)
      → search_back n candles params ≡ go_on s
      → FromBar params s
  unfolding search_back
  search_back-FromBar zero candles params s h = cc
  search_back-FromBar (suc n) [] params s h = cc
  search_back-FromBar (suc n) (bar ∷ older) params s h =
      elim (Option-cases (setup_at bar older params)) [
        | inl e ↦ search_back-FromBar n older params s (rw (e, search_back) at h)
        | inr (s', e) ↦ setup_at-FromBar bar older params s (e ∙ cc (rw (e, search_back) at h))
      ]

  detect_pullback-FromBar :
      (candles : List (Candle D)) (params : PullbackParameters D) (s : PullbackSetup D)
      → detect_pullback candles params ≡ go_on s
      → FromBar params s
  unfolding detect_pullback
  detect_pullback-FromBar candles params s h = elim (Bool-cases (ltb (length candles) 3)) [
    | inl e ↦ cc (rw (e, detect_pullback) at h)
    | inr e ↦ search_back-FromBar _ (reverse candles) params s (rw (e, detect_pullback) at h)
  ]

  check_uptrend-go_on :
      (ctx : MarketContext D) (close : Option D)
      → check_uptrend ctx close ≡ go_on tt
      → (ctx.trend_state ≡ uptrend) × (ctx.volatility_regime ≢ high) × (ctx.market_phase ≡ regular)
  unfolding check_uptrend
  check_uptrend-go_on ctx close h = (ground arith, ground arith, ground arith)

  -- The stop under the entry, the target not under it, and the last close short of the entry.
  abbrev IsWaitingLong : List (Candle D) → Signal D → Type 0
  IsWaitingLong candles s =
      (p : Prices D) × ((prices_of s ≡ go_on p)
        × (p.stop ≺ p.entry)
        × (p.entry ≼ p.target)
        × (last_close candles ≺ p.entry))

  priced_long-sides :
      (order : IsOrdered D) (laws : IsRounded D) (bar : Candle D) (older : List (Candle D))
      (params : PullbackParameters D)
      → d.nought ≼ params.reward_multiple
      → let s = priced_long bar older params in
        d.nought ≺ s.entry_price ⊖ s.stop_price
        → (s.stop_price ≺ s.entry_price) × (s.entry_price ≼ s.target_price)
  unfolding priced_long
  priced_long-sides order laws bar older params reward positive =
      let entry = bar.high ⊕ params.entry_offset_ticks ⊗ params.tick_size in
      let risk = entry ⊖ (bar.low ⊖ params.stop_offset_ticks ⊗ params.tick_size) in
      (
        laws.sub_pos entry _ positive,
        laws.le_add entry (params.reward_multiple ⊗ risk) (
            laws.mul_nonneg params.reward_multiple risk reward
              (le_of_lt order d.nought risk positive)),
      )

  built-IsWaitingLong :
      (order : IsOrdered D) (laws : IsRounded D) (symbol : String) (timeframe : TimeFrame)
      (setup : PullbackSetup D) (params : PullbackParameters D) (now : ℕ)
      (candles : List (Candle D)) (s : Signal D)
      → d.nought ≼ params.reward_multiple
      → FromBar params setup
      → last_close candles ≺ setup.entry_price
      → go_on (build_signal symbol timeframe setup params now) ≡ go_on s
      → (s.direction ≡ long) × IsWaitingLong candles s
  unfolding build_signal prices_of
  built-IsWaitingLong order laws symbol timeframe setup params now candles s reward
        (bar, (older, (good, same, positive))) short_of h =
      let p : Prices D = record {
        entry = setup.entry_price;
        stop = setup.stop_price;
        target = setup.target_price;
      } in
      let sides =
        subst
          (λ t.
            d.nought ≺ t.entry_price ⊖ t.stop_price
            → (t.stop_price ≺ t.entry_price) × (t.entry_price ≼ t.target_price))
          (sym same) (priced_long-sides order laws bar older params reward) positive in
      (
        cc,
        (
          p,
          (
            built-prices (build_signal symbol timeframe setup params now) s p refl h,
            sides.0,
            sides.1,
            short_of,
          ),
        ),
      )

  -- The context of the series: an uptrend in the regular hours without high volatility.
  abbrev pub IsUptrend : String → PullbackParameters D → List (Candle D) → Type 0
  IsUptrend symbol params candles =
      (timeframe : TimeFrame) × ((ctx : MarketContext D) × ((analyze_context (analyzer_of params)
              symbol timeframe candles
            ≡ some ctx)
          × (ctx.trend_state ≡ uptrend)
          × (ctx.volatility_regime ≢ high)
          × (ctx.market_phase ≡ regular)))

  -- Where the reward is no negative multiple and the numbers are ordered and rounded to the nearest, a
  -- signal of the strategy is a purchase in an uptrend within the regular hours, without high
  -- volatility, after so many closes in a row above their average; its stop lies under its entry, its
  -- target does not, and the last close has not reached the entry.
  pub pullback-IsSound :
      (order : IsOrdered D) (laws : IsRounded D) (now : ℕ) (symbol : String)
      (params : PullbackParameters D) (candles : List (Candle D)) (s : Signal D)
      → d.nought ≼ params.reward_multiple
      → analyze_candles now symbol params candles ≡ signal s
      → IsUptrend symbol params candles
        × (params.min_candles_above_ema20
            ≤ consecutive_closes_above_ema candles params.ema_context_period)
        × (s.direction ≡ long)
        × ((p : Prices D) × ((prices_of s ≡ go_on p)
              × (p.stop ≺ p.entry)
              × (p.entry ≼ p.target)
              × (last_close candles ≺ p.entry)))
  unfolding analyze_candles decide_signal
  pullback-IsSound order laws now symbol params candles s reward h =
      let h0 = answer-signal (decide_signal now symbol params candles) s h in
      let (timeframe, (e1, h1)) = bind-go_on (needed params.operational_timeframe) _ s h0 in
      let (ctx, (e2, h2)) =
        bind-go_on (needed (analyze_context (analyzer_of params) symbol timeframe candles)) _ s
          h1 in
      let (u, (trend, h3)) = bind-go_on (check_uptrend ctx none) _ s h2 in
      let (streak, h4) =
        reject_if-go_on
          (ltb (consecutive_closes_above_ema candles params.ema_context_period)
            params.min_candles_above_ema20)
          RejectionReason.no_context _ s h3 in
      let (setup, (found, h5)) = bind-go_on (detect_pullback candles params) _ s h4 in
      let (waits, h6) = reject_if-go_on _ RejectionReason.setup_invalidated _ s h5 in
      let built =
        built-IsWaitingLong order laws symbol timeframe setup params now candles s reward
          (detect_pullback-FromBar candles params setup found) waits h6 in
      let (up, calm, open_hours) = check_uptrend-go_on ctx none trend in
      (
        (timeframe, (ctx, (needed-go_on _ ctx e2, up, calm, open_hours))),
        ground arith,
        built.0,
        built.1,
      )

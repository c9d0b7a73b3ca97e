-- ===== src/Strategies/Low2M2sShort/Soundness.antt =====
-- What holds of a signal of the strategy.
use daytradebot.Base.{
  ℕ, zero, suc, ◌≡◌, ◌≢◌, ◌≤◌, refl, sym, ◌∙◌, subst, String, true, Option, none, some, List, [],
  ◌∷◌, length, reverse, Option-cases, Bool-cases, inl, inr, arith, ltb,
}
use daytradebot.Decimal.{Decimal, IsOrdered, IsRounded, ◌⊕◌, ◌⊖◌, ◌⊗◌, ◌≼◌, ◌≺◌, le_of_lt}
use daytradebot.Context.{analyze as analyze_context}
use daytradebot.Domain.Market.{Candle, MarketContext, TimeFrame, downtrend, regular, high}
use daytradebot.Domain.Signals.{Signal, signal, RejectionReason, short}
use daytradebot.Risk.{go_on, Prices, prices_of}
use daytradebot.Strategies.Checks.{
  needed, answer-signal, bind-go_on, reject_if-go_on, needed-go_on, built-prices,
}
use daytradebot.Strategies.Low2M2sShort.Params.{Low2Parameters}
use daytradebot.Strategies.Low2M2sShort.Trend.{check_downtrend, consecutive_closes_below_ema}
use daytradebot.Strategies.Low2M2sShort.Setup.{
  Low2Setup, is_bearish_signal_bar, priced_short, setup_at, search_back, detect_low_2,
}
use daytradebot.Strategies.Low2M2sShort.Analysis.{
  build_signal, analyzer_of, last_close, decide_signal, analyze_candles,
}

module _ {D : Type 0} ⦃d : Decimal D⦄ where
  -- A setup priced from one of the candles, with a positive risk.
  abbrev FromBar : Low2Parameters D → Low2Setup D → Type 0
  FromBar params s =
      (bar : Candle D) × ((older : List (Candle D)) × ((is_bearish_signal_bar bar params ≡ true)
          × (s ≡ priced_short bar older params)
          × (d.nought ≺ s.stop_price ⊖ s.entry_price)))

  setup_at-FromBar :
      (bar : Candle D) (older : List (Candle D)) (params : Low2Parameters D) (s : Low2Setup D)
      → setup_at bar older params ≡ some s
      → FromBar params s
  unfolding setup_at
  setup_at-FromBar bar older params s h = (bar, (older, (ground arith, ground arith, ground arith)))

  search_back-FromBar :
      (n : ℕ) (candles : List (Candle D)) (params : Low2Parameters D) (s : Low2Setup D)
      → search_back n candles params ≡ go_on s
      → FromBar params s
  unfolding search_back
  search_back-FromBar zero candles params s h = cc
  search_back-FromBar (suc n) [] params s h = cc
  search_back-FromBar (suc n) (bar ∷ older) params s h =
      elim (Option-cases (setup_at bar older params)) [
        | inl e ↦ search_back-FromBar n older params s (rw (e, search_back) at h)
        | inr (s', e) ↦ setup_at-FromBar bar older params s (e ∙ cc (rw (e, search_back) at h))
      ]

  detect_low_2-FromBar :
      (candles : List (Candle D)) (params : Low2Parameters D) (s : Low2Setup D)
      → detect_low_2 candles params ≡ go_on s
      → FromBar params s
  unfolding detect_low_2
  detect_low_2-FromBar candles params s h = elim (Bool-cases (ltb (length candles) 3)) [
    | inl e ↦ cc (rw (e, detect_low_2) at h)
    | inr e ↦ search_back-FromBar _ (reverse candles) params s (rw (e, detect_low_2) at h)
  ]

  check_downtrend-go_on :
      (ctx : MarketContext D) (close : Option D)
      → check_downtrend ctx close ≡ go_on tt
      → (ctx.trend_state ≡ downtrend)
        × (ctx.volatility_regime ≢ high)
        × (ctx.market_phase ≡ regular)
  unfolding check_downtrend
  check_downtrend-go_on ctx close h = (ground arith, ground arith, ground arith)

  -- The stop above the entry, the target not above it, and the last close still above the entry.
  abbrev IsWaitingShort : List (Candle D) → Signal D → Type 0
  IsWaitingShort candles s =
      (p : Prices D) × ((prices_of s ≡ go_on p)
        × (p.entry ≺ p.stop)
        × (p.target ≼ p.entry)
        × (p.entry ≺ last_close candles))

  priced_short-sides :
      (order : IsOrdered D) (laws : IsRounded D) (bar : Candle D) (older : List (Candle D))
      (params : Low2Parameters D)
      → d.nought ≼ params.reward_multiple
      → let s = priced_short bar older params in
        d.nought ≺ s.stop_price ⊖ s.entry_price
        → (s.entry_price ≺ s.stop_price) × (s.target_price ≼ s.entry_price)
  unfolding priced_short
  priced_short-sides order laws bar older params reward positive =
      let entry = bar.low ⊖ params.entry_offset_ticks ⊗ params.tick_size in
      let risk = (bar.high ⊕ params.stop_offset_ticks ⊗ params.tick_size) ⊖ entry in
      (
        laws.sub_pos _ entry positive,
        laws.sub_le entry (params.reward_multiple ⊗ risk) (
            laws.mul_nonneg params.reward_multiple risk reward
              (le_of_lt order d.nought risk positive)),
      )

  built-IsWaitingShort :
      (order : IsOrdered D) (laws : IsRounded D) (symbol : String) (timeframe : TimeFrame)
      (setup : Low2Setup D) (params : Low2Parameters D) (now : ℕ) (candles : List (Candle D))
      (s : Signal D)
      → d.nought ≼ params.reward_multiple
      → FromBar params setup
      → setup.entry_price ≺ last_close candles
      → go_on (build_signal symbol timeframe setup params now) ≡ go_on s
      → (s.direction ≡ short) × IsWaitingShort candles s
  unfolding build_signal prices_of
  built-IsWaitingShort order laws symbol timeframe setup params now candles s reward
        (bar, (older, (good, same, positive))) short_of h =
      let p : Prices D = record {
        entry = setup.entry_price;
        stop = setup.stop_price;
        target = setup.target_price;
      } in
      let sides =
        subst
          (λ t.
            d.nought ≺ t.stop_price ⊖ t.entry_price
            → (t.entry_price ≺ t.stop_price) × (t.target_price ≼ t.entry_price))
          (sym same) (priced_short-sides order laws bar older params reward) positive in
      (
        cc,
        (
          p,
          (
            built-prices (build_signal symbol timeframe setup params now) s p refl h,
            sides.0,
            sides.1,
            short_of,
          ),
        ),
      )

  -- The context of the series: a downtrend in the regular hours without high volatility.
  abbrev pub IsDowntrend : String → Low2Parameters D → List (Candle D) → Type 0
  IsDowntrend symbol params candles =
      (timeframe : TimeFrame) × ((ctx : MarketContext D) × ((analyze_context (analyzer_of params)
              symbol timeframe candles
            ≡ some ctx)
          × (ctx.trend_state ≡ downtrend)
          × (ctx.volatility_regime ≢ high)
          × (ctx.market_phase ≡ regular)))

  -- Where the reward is no negative multiple and the numbers are ordered and rounded to the nearest, a
  -- signal of the strategy is a sale in a downtrend within the regular hours, without high
  -- volatility, after so many closes in a row below their average; its stop lies above its entry, its
  -- target does not, and the last close has not come down to the entry.
  pub low_2-IsSound :
      (order : IsOrdered D) (laws : IsRounded D) (now : ℕ) (symbol : String)
      (params : Low2Parameters D) (candles : List (Candle D)) (s : Signal D)
      → d.nought ≼ params.reward_multiple
      → analyze_candles now symbol params candles ≡ signal s
      → IsDowntrend symbol params candles
        × (params.min_candles_below_ema20
            ≤ consecutive_closes_below_ema candles params.ema_context_period)
        × (s.direction ≡ short)
        × ((p : Prices D) × ((prices_of s ≡ go_on p)
              × (p.entry ≺ p.stop)
              × (p.target ≼ p.entry)
              × (p.entry ≺ last_close candles)))
  unfolding analyze_candles decide_signal
  low_2-IsSound order laws now symbol params candles s reward h =
      let h0 = answer-signal (decide_signal now symbol params candles) s h in
      let (timeframe, (e1, h1)) = bind-go_on (needed params.operational_timeframe) _ s h0 in
      let (ctx, (e2, h2)) =
        bind-go_on (needed (analyze_context (analyzer_of params) symbol timeframe candles)) _ s
          h1 in
      let (u, (trend, h3)) = bind-go_on (check_downtrend ctx none) _ s h2 in
      let (streak, h4) =
        reject_if-go_on
          (ltb (consecutive_closes_below_ema candles params.ema_context_period)
            params.min_candles_below_ema20)
          RejectionReason.no_context _ s h3 in
      let (setup, (found, h5)) = bind-go_on (detect_low_2 candles params) _ s h4 in
      let (waits, h6) = reject_if-go_on _ RejectionReason.setup_invalidated _ s h5 in
      let built =
        built-IsWaitingShort order laws symbol timeframe setup params now candles s reward
          (detect_low_2-FromBar candles params setup found) waits h6 in
      let (up, calm, open_hours) = check_downtrend-go_on ctx none trend in
      (
        (timeframe, (ctx, (needed-go_on _ ctx e2, up, calm, open_hours))),
        ground arith,
        built.0,
        built.1,
      )

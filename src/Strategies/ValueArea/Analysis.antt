-- ===== src/Strategies/ValueArea/Analysis.antt =====
-- The analysis of a series: mod.rs. The average range is `atr` of the indicators, which sums the same
-- ranges as the strategy's own copy.
use daytradebot.Base.{ℕ, String, List, [], ◌∷◌, length, ltb}
use daytradebot.Decimal.{Decimal, ◌⊖◌, ◌⊗◌, ◌⊘◌, lt}
use daytradebot.Session.{NewYork}
use daytradebot.Indicators.{atr}
use daytradebot.Context.{ContextAnalyzerConfig, analyze as analyze_context}
use daytradebot.Domain.Market.{Candle, MarketContext, TimeFrame}
use daytradebot.Domain.Signals.{Signal, SignalResult, refused, RejectionReason}
use daytradebot.Risk.{Check, go_on, reject_if, ◌>>=◌, ◌>>◌}
use daytradebot.TradeTracker.{get_or}
use daytradebot.Strategies.Checks.{needed, answer}
use daytradebot.Strategies.ValueArea.Params.{ValueParameters}
use daytradebot.Strategies.ValueArea.Profile.{ValueArea, compute_value_area}
use daytradebot.Strategies.ValueArea.Days.{
  previous_day_slice, daily_atr, ema_slope_signed, trend_against_traversal, check_hours,
}
use daytradebot.Strategies.ValueArea.Setup.{detect_traversal}
use daytradebot.Strategies.ValueArea.Entry.{traversal_prices, traversal_checked, traversal_signal}

module _ {D : Type 0} ⦃d : Decimal D⦄ where
  -- `ValueAreaReentryV1::new`, for the analyzer.
  unfoldable pub analyzer_of : ValueParameters D → ContextAnalyzerConfig D
  analyzer_of params = record {
    ema_period = 20;
    sma_period = 200;
    atr_period = params.atr_period;
    volume_period = 20;
    high_volatility_threshold_pct = params.max_atr_pct;
    low_volatility_threshold_pct = d.of_ℕ 3 ⊘ d.of_ℕ 10;
  }

  -- The filters and the setup once yesterday's area is known.
  unfoldable pub decide_in_area :
      NewYork
      → ℕ
      → String
      → TimeFrame
      → ValueParameters D
      → List (Candle D)
      → D
      → D
      → ValueArea D
      → Check (Signal D)
  decide_in_area ny now symbol timeframe params candles atr_value daily_atr_value va = do
    reject_if (lt (params.max_va_width_atr ⊗ daily_atr_value) (va.high ⊖ va.low))
        RejectionReason.value_area_too_wide
    setup ← detect_traversal ny candles va params
    reject_if (lt (params.max_open_distance_atr ⊗ daily_atr_value) setup.open_distance)
        RejectionReason.open_too_far_from_value
    reject_if
        (trend_against_traversal (get_or (ema_slope_signed candles params.trend_lookback) d.nought)
          setup.direction params.trend_slope_threshold)
        RejectionReason.trend_against_traversal
    prices ←
        traversal_checked setup.direction (traversal_prices setup va atr_value params) atr_value
          params
    go_on (traversal_signal symbol timeframe setup.direction prices params now)

  unfoldable pub decide_signal :
      NewYork → ℕ → String → ValueParameters D → List (Candle D) → Check (Signal D)
  decide_signal ny now symbol params candles = do
    reject_if (ltb (length candles) 40) RejectionReason.incomplete_setup
    timeframe ← needed params.operational_timeframe
    ctx ← needed (analyze_context (analyzer_of params) symbol timeframe candles)
    check_hours ny candles params
    atr_value ← needed (atr candles params.atr_period)
    daily_atr_value ← needed (daily_atr ny candles params.daily_atr_period)
    prev_day ← needed (previous_day_slice ny candles)
    va ← needed (compute_value_area prev_day params.va_buckets params.va_percent params.tick_size)
    decide_in_area ny now symbol timeframe params candles atr_value daily_atr_value va

  -- `ValueAreaReentryV1::analyze_candles`
  unfoldable pub analyze_candles :
      NewYork → ℕ → String → ValueParameters D → List (Candle D) → SignalResult D
  analyze_candles ny now symbol params candles = answer (decide_signal ny now symbol params candles)

  -- The method `analyze` of the trait.
  abbrev pub analyze_series :
      NewYork → ℕ → ValueParameters D → MarketContext D → List (Candle D) → SignalResult D
  analyze_series ny now params ctx [] = refused RejectionReason.incomplete_setup
  analyze_series ny now params ctx (c ∷ cs) = analyze_candles ny now ctx.symbol params (c ∷ cs)

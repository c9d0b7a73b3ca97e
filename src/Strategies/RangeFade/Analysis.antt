-- ===== src/Strategies/RangeFade/Analysis.antt =====
-- The analysis of a series: mod.rs. The average range is `atr` of the indicators, which sums the same
-- ranges as the strategy's own copy.
use daytradebot.Base.{ℕ, String, List, [], ◌∷◌, length, ltb}
use daytradebot.Decimal.{Decimal, ◌⊘◌}
use daytradebot.Session.{NewYork}
use daytradebot.Indicators.{atr}
use daytradebot.Context.{ContextAnalyzerConfig, analyze as analyze_context}
use daytradebot.Domain.Market.{Candle, MarketContext}
use daytradebot.Domain.Signals.{Signal, SignalResult, refused, RejectionReason}
use daytradebot.Risk.{Check, go_on, reject_if, ◌>>=◌, ◌>>◌}
use daytradebot.Strategies.Checks.{needed, answer}
use daytradebot.Strategies.ValueArea.Days.{daily_atr}
use daytradebot.Strategies.RangeFade.Params.{FadeParameters}
use daytradebot.Strategies.RangeFade.RangeDay.{check_hours, check_range_day}
use daytradebot.Strategies.RangeFade.Vetoes.{is_midday_midrange, is_barb_wire}
use daytradebot.Strategies.RangeFade.Setup.{detect_fade, fade_prices, fade_checked, fade_signal}

module _ {D : Type 0} ⦃d : Decimal D⦄ where
  -- `RangeExtremeFadeV1::new`, for the analyzer.
  unfoldable pub analyzer_of : FadeParameters D → ContextAnalyzerConfig D
  analyzer_of params = record {
    ema_period = 20;
    sma_period = 200;
    atr_period = params.atr_period;
    volume_period = 20;
    high_volatility_threshold_pct = params.max_atr_pct;
    low_volatility_threshold_pct = d.of_ℕ 3 ⊘ d.of_ℕ 10;
  }

  unfoldable pub decide_signal :
      NewYork → ℕ → String → FadeParameters D → List (Candle D) → Check (Signal D)
  decide_signal ny now symbol params candles = do
    reject_if (ltb (length candles) 40) RejectionReason.incomplete_setup
    timeframe ← needed params.operational_timeframe
    ctx ← needed (analyze_context (analyzer_of params) symbol timeframe candles)
    check_hours ny candles params
    atr_value ← needed (atr candles params.atr_period)
    daily_atr_value ← needed (daily_atr ny candles params.daily_atr_period)
    check_range_day ny candles daily_atr_value params
    reject_if (is_midday_midrange ny candles params) RejectionReason.midday_midrange
    reject_if (is_barb_wire candles params) RejectionReason.barb_wire
    setup ← detect_fade ny candles atr_value params
    prices ← fade_checked (fade_prices setup params) params
    go_on (fade_signal symbol timeframe setup.direction prices params now)

  -- `RangeExtremeFadeV1::analyze_candles`
  unfoldable pub analyze_candles :
      NewYork → ℕ → String → FadeParameters D → List (Candle D) → SignalResult D
  analyze_candles ny now symbol params candles = answer (decide_signal ny now symbol params candles)

  -- The method `analyze` of the trait.
  abbrev pub analyze_series :
      NewYork → ℕ → FadeParameters D → MarketContext D → List (Candle D) → SignalResult D
  analyze_series ny now params ctx [] = refused RejectionReason.incomplete_setup
  analyze_series ny now params ctx (c ∷ cs) = analyze_candles ny now ctx.symbol params (c ∷ cs)

-- ===== src/Strategies/Trendline/Analysis.antt =====
-- The analysis of a series: mod.rs. The average range is `atr` of the indicators, which sums the same
-- ranges as the strategy's own copy.
use daytradebot.Base.{ℕ, ◌+◌, String, Option, none, some, List, [], ◌∷◌, length, ltb, if◌then◌else◌}
use daytradebot.Decimal.{Decimal, ◌⊘◌}
use daytradebot.Session.{NewYork}
use daytradebot.Indicators.{atr}
use daytradebot.Context.{ContextAnalyzerConfig, analyze as analyze_context}
use daytradebot.TimeExit.{TimeExitConfig}
use daytradebot.Domain.Market.{Candle, MarketContext}
use daytradebot.Domain.Signals.{Signal, SignalResult, refused, RejectionReason}
use daytradebot.Risk.{Check, go_on, reject_if, ◌>>=◌, ◌>>◌}
use daytradebot.Strategies.Checks.{needed, answer}
use daytradebot.Strategies.Trendline.Params.{TrendlineParameters}
use daytradebot.Strategies.Trendline.Trend.{detect_trend}
use daytradebot.Strategies.Trendline.Break.{check_hours, find_trendline_break}
use daytradebot.Strategies.Trendline.Setup.{detect_test, test_prices, test_checked, test_signal}

module _ {D : Type 0} ⦃d : Decimal D⦄ where
  -- `TrendlineBreakTestV1::new`, for the analyzer.
  unfoldable pub analyzer_of : TrendlineParameters D → ContextAnalyzerConfig D
  analyzer_of params = record {
    ema_period = 20;
    sma_period = 200;
    atr_period = params.atr_period;
    volume_period = 20;
    high_volatility_threshold_pct = params.max_atr_pct;
    low_volatility_threshold_pct = d.of_ℕ 3 ⊘ d.of_ℕ 10;
  }

  -- The exit by time of the settings, if it is on.
  unfoldable pub time_exit_of : TimeExitConfig D → Option (TimeExitConfig D)
  time_exit_of te = if te.enabled then some te else none

  unfoldable pub decide_signal :
      NewYork → ℕ → String → TrendlineParameters D → List (Candle D) → Check (Signal D)
  decide_signal ny now symbol params candles = do
    reject_if
        (ltb (length candles)
          (params.trend_lookback + params.break_max_age + params.atr_period + 5))
        RejectionReason.incomplete_setup
    timeframe ← needed params.operational_timeframe
    ctx ← needed (analyze_context (analyzer_of params) symbol timeframe candles)
    check_hours ny candles params
    atr_value ← needed (atr candles params.atr_period)
    trend ← detect_trend candles params
    brk ← find_trendline_break candles trend params
    setup ← detect_test candles trend brk atr_value params
    prices ← test_checked (test_prices setup params) atr_value params
    go_on (test_signal symbol timeframe setup.direction prices params now)

  -- `TrendlineBreakTestV1::analyze_candles`
  unfoldable pub analyze_candles :
      NewYork → ℕ → String → TrendlineParameters D → List (Candle D) → SignalResult D
  analyze_candles ny now symbol params candles = answer (decide_signal ny now symbol params candles)

  -- The method `analyze` of the trait.
  abbrev pub analyze_series :
      NewYork → ℕ → TrendlineParameters D → MarketContext D → List (Candle D) → SignalResult D
  analyze_series ny now params ctx [] = refused RejectionReason.incomplete_setup
  analyze_series ny now params ctx (c ∷ cs) = analyze_candles ny now ctx.symbol params (c ∷ cs)

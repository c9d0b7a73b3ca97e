-- ===== src/Strategies/OpeningReversal/Analysis.antt =====
-- The analysis of a series: mod.rs.
use daytradebot.Base.{ℕ, String, List, [], ◌∷◌, length, ltb}
use daytradebot.Decimal.{Decimal, ◌⊘◌}
use daytradebot.Session.{NewYork}
use daytradebot.Indicators.{atr}
use daytradebot.Context.{ContextAnalyzerConfig, analyze as analyze_context}
use daytradebot.Domain.Market.{Candle, MarketContext}
use daytradebot.Domain.Signals.{Signal, SignalResult, refused, RejectionReason}
use daytradebot.Risk.{Check, go_on, reject_if, ◌>>=◌, ◌>>◌}
use daytradebot.Strategies.Checks.{needed, answer}
use daytradebot.Strategies.OpeningReversal.Params.{StrategyParameters}
use daytradebot.Strategies.OpeningReversal.Levels.{check_trading_hours, yesterday_levels}
use daytradebot.Strategies.OpeningReversal.Setup.{detect_setup}
use daytradebot.Strategies.OpeningReversal.Entry.{evaluate_prices, build_signal}

module _ {D : Type 0} ⦃d : Decimal D⦄ where
  -- `OpeningReversalV1::new`, for the analyzer.
  unfoldable pub analyzer_of : StrategyParameters D → ContextAnalyzerConfig D
  analyzer_of params = record {
    ema_period = 20;
    sma_period = 200;
    atr_period = params.atr_period;
    volume_period = 20;
    high_volatility_threshold_pct = params.max_atr_pct;
    low_volatility_threshold_pct = d.of_ℕ 3 ⊘ d.of_ℕ 10;
  }

  unfoldable pub decide_signal :
      NewYork → ℕ → String → StrategyParameters D → List (Candle D) → Check (Signal D)
  decide_signal ny now symbol params candles = do
    reject_if (ltb (length candles) 2) RejectionReason.incomplete_setup
    timeframe ← needed params.operational_timeframe
    ctx ← needed (analyze_context (analyzer_of params) symbol timeframe candles)
    check_trading_hours ny candles params
    levels ← needed (yesterday_levels ny candles)
    atr_value ← needed (atr candles params.atr_period)
    setup ← detect_setup candles levels params
    prices ← evaluate_prices setup atr_value params
    go_on (build_signal symbol timeframe setup prices params now)

  -- `OpeningReversalV1::analyze_candles`
  unfoldable pub analyze_candles :
      NewYork → ℕ → String → StrategyParameters D → List (Candle D) → SignalResult D
  analyze_candles ny now symbol params candles = answer (decide_signal ny now symbol params candles)

  -- The method `analyze` of the trait.
  abbrev pub analyze_series :
      NewYork → ℕ → StrategyParameters D → MarketContext D → List (Candle D) → SignalResult D
  analyze_series ny now params ctx [] = refused RejectionReason.incomplete_setup
  analyze_series ny now params ctx (c ∷ cs) = analyze_candles ny now ctx.symbol params (c ∷ cs)

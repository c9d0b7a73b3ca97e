-- ===== src/Strategies/BalanceArea/Analysis.antt =====
-- The analysis of a series: mod.rs. The average range is `atr` of the indicators, which sums the same
-- ranges as the strategy's own copy.
use daytradebot.Base.{ℕ, ◌+◌, String, List, [], ◌∷◌, length, ltb}
use daytradebot.Decimal.{Decimal, ◌⊘◌}
use daytradebot.Session.{NewYork}
use daytradebot.Indicators.{atr}
use daytradebot.Context.{ContextAnalyzerConfig, analyze as analyze_context}
use daytradebot.Domain.Market.{Candle, MarketContext}
use daytradebot.Domain.Signals.{Signal, SignalResult, refused, RejectionReason}
use daytradebot.Risk.{Check, go_on, reject_if, ◌>>=◌, ◌>>◌}
use daytradebot.Strategies.Checks.{needed, answer}
use daytradebot.Strategies.BalanceArea.Params.{BalanceParameters}
use daytradebot.Strategies.BalanceArea.Area.{check_hours, detect_balance_area, detect_breakout}
use daytradebot.Strategies.BalanceArea.Entry.{breakout_prices, breakout_checked, breakout_signal}

module _ {D : Type 0} ⦃d : Decimal D⦄ where
  -- `BalanceAreaBreakoutV1::new`, for the analyzer.
  unfoldable pub analyzer_of : BalanceParameters D → ContextAnalyzerConfig D
  analyzer_of params = record {
    ema_period = 20;
    sma_period = 200;
    atr_period = params.atr_period;
    volume_period = 20;
    high_volatility_threshold_pct = params.max_atr_pct;
    low_volatility_threshold_pct = d.of_ℕ 3 ⊘ d.of_ℕ 10;
  }

  unfoldable pub decide_signal :
      NewYork → ℕ → String → BalanceParameters D → List (Candle D) → Check (Signal D)
  decide_signal ny now symbol params candles = do
    reject_if (ltb (length candles) (params.balance_lookback_candles + 1))
        RejectionReason.incomplete_setup
    timeframe ← needed params.operational_timeframe
    ctx ← needed (analyze_context (analyzer_of params) symbol timeframe candles)
    check_hours ny candles params
    atr_value ← needed (atr candles params.atr_period)
    area ← detect_balance_area ny candles atr_value params
    broken ← detect_breakout candles area
    prices ←
        breakout_checked (breakout_prices broken.0 broken.1 area atr_value params) atr_value params
    go_on (breakout_signal symbol timeframe broken.0 prices params now)

  -- `BalanceAreaBreakoutV1::analyze_candles`
  unfoldable pub analyze_candles :
      NewYork → ℕ → String → BalanceParameters D → List (Candle D) → SignalResult D
  analyze_candles ny now symbol params candles = answer (decide_signal ny now symbol params candles)

  -- The method `analyze` of the trait.
  abbrev pub analyze_series :
      NewYork → ℕ → BalanceParameters D → MarketContext D → List (Candle D) → SignalResult D
  analyze_series ny now params ctx [] = refused RejectionReason.incomplete_setup
  analyze_series ny now params ctx (c ∷ cs) = analyze_candles ny now ctx.symbol params (c ∷ cs)

-- ===== src/Strategies/PullbackTrend/Analysis.antt =====
-- The signal and the analysis of a series: entry.rs and mod.rs.
use daytradebot.Base.{ℕ, String, Option, none, some, List, [], ◌∷◌, get_last?, ltb, if◌then◌else◌}
use daytradebot.Decimal.{Decimal, ◌⊖◌, ◌⊗◌, ◌⊘◌, le, is_zero}
use daytradebot.Context.{ContextAnalyzerConfig, analyze as analyze_context}
use daytradebot.Domain.Market.{Candle, MarketContext, TimeFrame}
use daytradebot.Domain.Signals.{Signal, SignalStatus, SignalResult, refused, RejectionReason, long}
use daytradebot.Risk.{Check, go_on, reject_if, ◌>>=◌, ◌>>◌}
use daytradebot.Strategies.Checks.{needed, answer}
use daytradebot.Strategies.PullbackTrend.Params.{PullbackParameters}
use daytradebot.Strategies.PullbackTrend.Trend.{check_uptrend, consecutive_closes_above_ema}
use daytradebot.Strategies.PullbackTrend.Setup.{PullbackSetup, detect_pullback}

module _ {D : Type 0} ⦃d : Decimal D⦄ where
  unfoldable pub build_signal :
      String → TimeFrame → PullbackSetup D → PullbackParameters D → ℕ → Signal D
  build_signal symbol timeframe s params now = record {
    symbol = symbol;
    timeframe = timeframe;
    timestamp = now;
    direction = long;
    status = SignalStatus.accepted;
    entry_order_type = params.entry_order_type;
    entry_price = some s.entry_price;
    stop_price = some s.stop_price;
    target_price = some s.target_price;
    risk_reward_ratio =
        some (d.abs ((s.target_price ⊖ s.entry_price) ⊘ d.abs (s.entry_price ⊖ s.stop_price)));
    risk_percent = none;
  }

  unfoldable pub position_size : D → D → D → D → Option D
  position_size capital risk_per_trade_pct entry_price stop_price =
      let risk_distance = d.abs (entry_price ⊖ stop_price) in
      if is_zero risk_distance
      then none
      else some (d.trunc (capital ⊗ risk_per_trade_pct ⊘ d.of_ℕ 100 ⊘ risk_distance))

  -- `PullbackTrendV1::new`, for the analyzer.
  unfoldable pub analyzer_of : PullbackParameters D → ContextAnalyzerConfig D
  analyzer_of params = record {
    ema_period = params.ema_context_period;
    sma_period = params.sma_context_period;
    atr_period = 14;
    volume_period = 20;
    high_volatility_threshold_pct = params.max_atr_pct;
    low_volatility_threshold_pct = d.of_ℕ 3 ⊘ d.of_ℕ 10;
  }

  abbrev pub last_close : List (Candle D) → D
  last_close candles = elim (get_last? candles) [ none ↦ d.nought | some c ↦ c.close ]

  unfoldable pub decide_signal :
      ℕ → String → PullbackParameters D → List (Candle D) → Check (Signal D)
  decide_signal now symbol params candles = do
    timeframe ← needed params.operational_timeframe
    ctx ← needed (analyze_context (analyzer_of params) symbol timeframe candles)
    check_uptrend ctx none
    reject_if
        (ltb (consecutive_closes_above_ema candles params.ema_context_period)
          params.min_candles_above_ema20)
        RejectionReason.no_context
    setup ← detect_pullback candles params
    reject_if (le setup.entry_price (last_close candles)) RejectionReason.setup_invalidated
    go_on (build_signal symbol timeframe setup params now)

  -- `PullbackTrendV1::analyze_candles`
  unfoldable pub analyze_candles :
      ℕ → String → PullbackParameters D → List (Candle D) → SignalResult D
  analyze_candles now symbol params candles = answer (decide_signal now symbol params candles)

  -- The method `analyze` of the trait.
  abbrev pub analyze_series :
      ℕ → PullbackParameters D → MarketContext D → List (Candle D) → SignalResult D
  analyze_series now params ctx [] = refused RejectionReason.incomplete_setup
  analyze_series now params ctx (c ∷ cs) = analyze_candles now ctx.symbol params (c ∷ cs)

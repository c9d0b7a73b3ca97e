-- ===== src/Strategies/Low2M2sShort/Analysis.antt =====
-- The signal and the analysis of a series: entry.rs and mod.rs.
use daytradebot.Base.{ℕ, String, none, some, List, [], ◌∷◌, get_last?, ltb}
use daytradebot.Decimal.{Decimal, ◌⊖◌, ◌⊘◌, le}
use daytradebot.Context.{ContextAnalyzerConfig, analyze as analyze_context}
use daytradebot.Domain.Market.{Candle, MarketContext, TimeFrame}
use daytradebot.Domain.Signals.{Signal, SignalStatus, SignalResult, refused, RejectionReason, short}
use daytradebot.Risk.{Check, go_on, reject_if, ◌>>=◌, ◌>>◌}
use daytradebot.Strategies.Checks.{needed, answer, percent_of}
use daytradebot.Strategies.Low2M2sShort.Params.{Low2Parameters}
use daytradebot.Strategies.Low2M2sShort.Trend.{check_downtrend, consecutive_closes_below_ema}
use daytradebot.Strategies.Low2M2sShort.Setup.{Low2Setup, detect_low_2}

module _ {D : Type 0} ⦃d : Decimal D⦄ where
  unfoldable pub build_signal : String → TimeFrame → Low2Setup D → Low2Parameters D → ℕ → Signal D
  build_signal symbol timeframe s params now = record {
    symbol = symbol;
    timeframe = timeframe;
    timestamp = now;
    direction = short;
    status = SignalStatus.accepted;
    entry_order_type = params.entry_order_type;
    entry_price = some s.entry_price;
    stop_price = some s.stop_price;
    target_price = some s.target_price;
    risk_reward_ratio =
        some (d.abs ((s.target_price ⊖ s.entry_price) ⊘ d.abs (s.entry_price ⊖ s.stop_price)));
    risk_percent = percent_of params.risk_per_trade_pct;
  }

  -- `Low2M2sShortV1::new`, for the analyzer.
  unfoldable pub analyzer_of : Low2Parameters D → ContextAnalyzerConfig D
  analyzer_of params = record {
    ema_period = params.ema_context_period;
    sma_period = params.sma_context_period;
    atr_period = 14;
    volume_period = 20;
    high_volatility_threshold_pct = params.max_atr_pct;
    low_volatility_threshold_pct = d.of_ℕ 3 ⊘ d.of_ℕ 10;
  }

  abbrev pub last_close : List (Candle D) → D
  last_close candles = elim (get_last? candles) [ none ↦ d.nought | some c ↦ c.close ]

  unfoldable pub decide_signal : ℕ → String → Low2Parameters D → List (Candle D) → Check (Signal D)
  decide_signal now symbol params candles = do
    timeframe ← needed params.operational_timeframe
    ctx ← needed (analyze_context (analyzer_of params) symbol timeframe candles)
    check_downtrend ctx none
    reject_if
        (ltb (consecutive_closes_below_ema candles params.ema_context_period)
          params.min_candles_below_ema20)
        RejectionReason.no_context
    setup ← detect_low_2 candles params
    reject_if (le (last_close candles) setup.entry_price) RejectionReason.setup_invalidated
    go_on (build_signal symbol timeframe setup params now)

  -- `Low2M2sShortV1::analyze_candles`
  unfoldable pub analyze_candles : ℕ → String → Low2Parameters D → List (Candle D) → SignalResult D
  analyze_candles now symbol params candles = answer (decide_signal now symbol params candles)

  -- The method `analyze` of the trait.
  abbrev pub analyze_series :
      ℕ → Low2Parameters D → MarketContext D → List (Candle D) → SignalResult D
  analyze_series now params ctx [] = refused RejectionReason.incomplete_setup
  analyze_series now params ctx (c ∷ cs) = analyze_candles now ctx.symbol params (c ∷ cs)

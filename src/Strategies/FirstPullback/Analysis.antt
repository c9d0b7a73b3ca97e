-- ===== src/Strategies/FirstPullback/Analysis.antt =====
-- The search for a breakout in the window of the pullback, and the analysis of a series: mod.rs. The
-- average range is `atr` of the indicators, which sums the same ranges as the strategy's own copy.
use daytradebot.Base.{
  ℕ, zero, suc, ◌+◌, ◌-◌, Bool, true, false, String, Option, none, some, List, [], ◌∷◌, length, leb,
  ltb, if◌then◌else◌,
}
use daytradebot.Decimal.{Decimal, ◌⊘◌}
use daytradebot.Session.{NewYork}
use daytradebot.Indicators.{atr}
use daytradebot.Context.{ContextAnalyzerConfig, analyze as analyze_context}
use daytradebot.Domain.Market.{Candle, MarketContext, TimeFrame}
use daytradebot.Domain.Signals.{Signal, SignalResult, refused, RejectionReason}
use daytradebot.Risk.{Check, go_on, reject, reject_if, ◌>>=◌, ◌>>◌}
use daytradebot.Strategies.Checks.{needed, answer}
use daytradebot.Strategies.FirstPullback.Params.{FirstPullbackParameters}
use daytradebot.Strategies.FirstPullback.Level.{Breakout, check_hours, detect_breakout}
use daytradebot.Strategies.FirstPullback.Pullback.{detect_first_pullback}
use daytradebot.Strategies.FirstPullback.Entry.{pullback_prices, pullback_checked, pullback_signal}

abbrev pub is_incomplete : RejectionReason → Bool
is_incomplete RejectionReason.incomplete_setup = true
is_incomplete reason = false

-- The first reason for which a candidate that broke the level was refused.
abbrev pub noted : Option RejectionReason → RejectionReason → Option RejectionReason
noted (some first) reason = some first
noted none reason = if is_incomplete reason then none else some reason

abbrev pub first_or_incomplete : Option RejectionReason → RejectionReason
first_or_incomplete none = RejectionReason.incomplete_setup
first_or_incomplete (some reason) = reason

-- How the search ends: with a breakout, or with the reason noted.
pub data Search (D : Type 0) : Type 0 where
  found : Breakout D → Search D
  missed : Option RejectionReason → Search D

module _ {D : Type 0} ⦃d : Decimal D⦄ where
  -- `BreakoutFirstPullbackV1::new`, for the analyzer.
  unfoldable pub analyzer_of : FirstPullbackParameters D → ContextAnalyzerConfig D
  analyzer_of params = record {
    ema_period = 20;
    sma_period = 200;
    atr_period = params.atr_period;
    volume_period = params.avg_period;
    high_volatility_threshold_pct = params.max_atr_pct;
    low_volatility_threshold_pct = d.of_ℕ 3 ⊘ d.of_ℕ 10;
  }

  -- The candidate of a length of the pullback. The source skips a length that the series does not
  -- have, and notes nothing then, nor where the setup is incomplete.
  abbrev pub candidate : List (Candle D) → ℕ → D → FirstPullbackParameters D → Check (Breakout D)
  candidate candles pullback_len atr_value params =
      if leb (length candles) pullback_len
      then reject RejectionReason.incomplete_setup
      else detect_breakout candles (length candles - 1 - pullback_len) atr_value params

  -- So many lengths of the pullback, from the shortest on.
  unfoldable pub search :
      ℕ → ℕ → List (Candle D) → D → FirstPullbackParameters D → Option RejectionReason → Search D
  search zero pullback_len candles atr_value params first = missed first
  search (suc n) pullback_len candles atr_value params first =
      elim (candidate candles pullback_len atr_value params) [
        | go_on b ↦ found b
        | reject reason ↦ search n (pullback_len + 1) candles atr_value params (noted first reason)
      ]

  abbrev pub search_window : List (Candle D) → D → FirstPullbackParameters D → Search D
  search_window candles atr_value params =
      search (params.pullback_max_candles + 1 - params.pullback_min_candles)
        params.pullback_min_candles candles atr_value params none

  -- A breakout one candle too old.
  abbrev pub old_breakout : List (Candle D) → D → FirstPullbackParameters D → Bool
  old_breakout candles atr_value params =
      let old_index = length candles - (1 + params.pullback_max_candles + 1) in
      elim (detect_breakout candles old_index atr_value params) [
        | go_on b ↦ ltb 0 old_index
        | reject reason ↦ false
      ]

  -- The breakout that the search answers, or the reason for the refusal.
  abbrev pub chosen :
      List (Candle D) → D → FirstPullbackParameters D → Search D → Check (Breakout D)
  chosen candles atr_value params (found b) = go_on b
  chosen candles atr_value params (missed first) =
      if old_breakout candles atr_value params
      then reject RejectionReason.pullback_too_long
      else reject (first_or_incomplete first)

  -- `finish`
  unfoldable pub finish :
      ℕ
      → String
      → TimeFrame
      → List (Candle D)
      → Breakout D
      → D
      → FirstPullbackParameters D
      → Check (Signal D)
  finish now symbol timeframe candles breakout atr_value params = do
    setup ← detect_first_pullback candles breakout params
    prices ← pullback_checked candles (pullback_prices setup params) atr_value params
    go_on (pullback_signal symbol timeframe prices params now)

  unfoldable pub decide_signal :
      NewYork → ℕ → String → FirstPullbackParameters D → List (Candle D) → Check (Signal D)
  decide_signal ny now symbol params candles = do
    reject_if (leb (length candles) 0) RejectionReason.incomplete_setup
    timeframe ← needed params.operational_timeframe
    ctx ← needed (analyze_context (analyzer_of params) symbol timeframe candles)
    check_hours ny candles params
    atr_value ← needed (atr candles params.atr_period)
    breakout ← chosen candles atr_value params (search_window candles atr_value params)
    finish now symbol timeframe candles breakout atr_value params

  -- `BreakoutFirstPullbackV1::analyze_candles`
  unfoldable pub analyze_candles :
      NewYork → ℕ → String → FirstPullbackParameters D → List (Candle D) → SignalResult D
  analyze_candles ny now symbol params candles = answer (decide_signal ny now symbol params candles)

  -- The method `analyze` of the trait.
  abbrev pub analyze_series :
      NewYork → ℕ → FirstPullbackParameters D → MarketContext D → List (Candle D) → SignalResult D
  analyze_series ny now params ctx [] = refused RejectionReason.incomplete_setup
  analyze_series ny now params ctx (c ∷ cs) = analyze_candles ny now ctx.symbol params (c ∷ cs)

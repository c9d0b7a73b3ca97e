-- ===== src/Strategies/FailureTest/Analysis.antt =====
-- The analysis of a series: mod.rs.
use daytradebot.Base.{
  ℕ, Bool, true, false, ◌&&◌, String, Option, none, some, List, [], ◌∷◌, get_last?, if◌then◌else◌,
}
use daytradebot.Decimal.{Decimal, ◌⊘◌, le}
use daytradebot.Session.{NewYork}
use daytradebot.Context.{default_config, analyze as analyze_context}
use daytradebot.Domain.Market.{Candle, MarketContext}
use daytradebot.Domain.Orders.{EntryOrderType}
use daytradebot.Domain.Signals.{Signal, SignalResult, refused, RejectionReason}
use daytradebot.TimeExit.{TimeExitConfig}
use daytradebot.Risk.{Check, go_on, reject_if, ◌>>=◌, ◌>>◌}
use daytradebot.Strategies.Checks.{needed, answer}
use daytradebot.Strategies.FailureTest.Params.{FailureParameters}
use daytradebot.Strategies.FailureTest.Momentum.{close_of}
use daytradebot.Strategies.FailureTest.Primed.{check_context}
use daytradebot.Strategies.FailureTest.Entry.{detect_failure, failure_signal}

abbrev pub is_stop_entry : EntryOrderType → Bool
is_stop_entry EntryOrderType.stop = true
is_stop_entry EntryOrderType.limit = false

module _ {D : Type 0} ⦃d : Decimal D⦄ where
  -- The exit by time where it is enabled, and its default.
  abbrev pub time_exit_of : TimeExitConfig D → Option (TimeExitConfig D)
  time_exit_of te = if te.enabled then some te else none

  abbrev pub default_time_exit : TimeExitConfig D
  default_time_exit = record { enabled = true; min_r = d.of_ℕ 5 ⊘ d.of_ℕ 10; candles = 3 }

  unfoldable pub decide_signal :
      NewYork → ℕ → String → FailureParameters D → List (Candle D) → Check (Signal D)
  decide_signal ny now symbol params candles = do
    timeframe ← needed params.operational_timeframe
    ctx ← needed (analyze_context default_config symbol timeframe candles)
    data_found ← check_context ny candles ctx params
    setup ← detect_failure candles data_found.atr params
    reject_if
        (is_stop_entry params.entry_order_type
          && le setup.prices.entry (close_of (get_last? candles)))
        RejectionReason.setup_invalidated
    go_on (failure_signal symbol timeframe setup.prices params now)

  -- `FailureTestLongV1::analyze_candles`
  unfoldable pub analyze_candles :
      NewYork → ℕ → String → FailureParameters D → List (Candle D) → SignalResult D
  analyze_candles ny now symbol params candles = answer (decide_signal ny now symbol params candles)

  -- The method `analyze` of the trait.
  abbrev pub analyze_series :
      NewYork → ℕ → FailureParameters D → MarketContext D → List (Candle D) → SignalResult D
  analyze_series ny now params ctx [] = refused RejectionReason.incomplete_setup
  analyze_series ny now params ctx (c ∷ cs) = analyze_candles ny now ctx.symbol params (c ∷ cs)

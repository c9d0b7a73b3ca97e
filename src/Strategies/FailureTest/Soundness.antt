-- ===== src/Strategies/FailureTest/Soundness.antt =====
-- What holds of a signal of the strategy.
use daytradebot.Base.{◌≡◌, some, List, get_elem?, get_last?, true}
use daytradebot.Decimal.{Decimal, ◌⊖◌, ◌⊗◌, ◌⊘◌, ◌≼◌, ◌≺◌}
use daytradebot.Session.{NewYork}
use daytradebot.Context.{analyze as analyze_context}
use daytradebot.Domain.Market.{Candle}
use daytradebot.Domain.Signals.{Signal}
use daytradebot.Risk.{go_on, Prices, prices_of}
use daytradebot.Strategies.FailureTest.Params.{FailureParameters}
use daytradebot.Strategies.FailureTest.Primed.{ContextData, within_window, IsPrimed}
use daytradebot.Strategies.FailureTest.Level.{IsSupport}
use daytradebot.Strategies.FailureTest.Recovery.{IsProbe}
use daytradebot.Strategies.FailureTest.Entry.{FailureSetup, failure_prices}

module _ {D : Type 0} ⦃d : Decimal D⦄ where
  -- What the checks of the prices establish.
  abbrev pub WithinBounds : D → FailureParameters D → Prices D → Type 0
  WithinBounds atr_value params p =
      (d.nought ≺ p.entry ⊖ p.stop)
      × (p.entry ⊖ p.stop ≼ params.max_stop_atr_mult ⊗ atr_value)
      × (params.min_risk_reward ≼ (p.target ⊖ p.entry) ⊘ (p.entry ⊖ p.stop))

  -- The setup: a support, a probe under it, and prices at its recovery.
  abbrev pub ComesFrom : List (Candle D) → FailureParameters D → D → FailureSetup D → Type 0
  ComesFrom candles params atr_value setup =
      IsSupport candles params setup.level
      × IsProbe candles params setup.level.price atr_value setup.probe
      × ((recovery : Candle D) × ((get_elem? candles setup.probe.recovery_index ≡ some recovery)
            × (failure_prices recovery setup.probe atr_value params ≡ setup.prices)))
      × WithinBounds atr_value params setup.prices

  -- The prices are those of the setup, with the stop under the entry.
  abbrev pub HasFailurePrices : FailureSetup D → Signal D → Type 0
  HasFailurePrices setup s =
      (prices_of s ≡ go_on setup.prices) × (setup.prices.stop ≺ setup.prices.entry)

  -- The market as the strategy found it: the last candle within the window, and an approved context.
  abbrev pub IsReady : NewYork → FailureParameters D → List (Candle D) → ContextData D → Type 0
  IsReady ny params candles data_found =
      ((c : Candle D) × ((get_last? candles ≡ some c)
          × (within_window ny c.timestamp params.trading_start_time params.trading_end_time
              ≡ true)))
      × IsPrimed candles params data_found

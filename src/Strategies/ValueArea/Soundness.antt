-- ===== src/Strategies/ValueArea/Soundness.antt =====
-- What holds of a signal of the strategy.
use daytradebot.Base.{◌≡◌, some, List}
use daytradebot.Decimal.{Decimal, ◌⊖◌, ◌⊗◌, ◌⊘◌, ◌≼◌, ◌≺◌}
use daytradebot.Session.{NewYork}
use daytradebot.Indicators.{atr}
use daytradebot.Context.{analyze as analyze_context}
use daytradebot.Domain.Market.{Candle}
use daytradebot.Domain.Signals.{Direction, Signal}
use daytradebot.Risk.{go_on, Prices, prices_of, risk_distance}
use daytradebot.Strategies.ValueArea.Params.{ValueParameters}
use daytradebot.Strategies.ValueArea.Profile.{ValueArea, compute_value_area}
use daytradebot.Strategies.ValueArea.Days.{previous_day_slice, daily_atr}
use daytradebot.Strategies.ValueArea.Reentry.{IsReentry}
use daytradebot.Strategies.ValueArea.Setup.{TraversalSetup}
use daytradebot.Strategies.ValueArea.Entry.{reward_of, traversal_prices}

module _ {D : Type 0} ⦃d : Decimal D⦄ where
  -- The bounds that the checked prices keep.
  abbrev pub WithinBounds : Direction → D → ValueParameters D → Prices D → Type 0
  WithinBounds direction atr_value params p =
      (params.tick_size ≺ risk_distance p)
      × (d.nought ≺ reward_of direction p)
      × (params.min_risk_reward ≼ reward_of direction p ⊘ risk_distance p)

  -- Where a signal comes from: the average ranges, yesterday's area, and the way back into it.
  abbrev pub ComesFrom :
      NewYork
      → ValueParameters D
      → List (Candle D)
      → D
      → D
      → ValueArea D
      → TraversalSetup D
      → Type 0
  ComesFrom ny params candles atr_value daily va s =
      (atr candles params.atr_period ≡ some atr_value)
      × (daily_atr ny candles params.daily_atr_period ≡ some daily)
      × ((prev_day : List (Candle D)) × ((previous_day_slice ny candles ≡ some prev_day)
            × (compute_value_area prev_day params.va_buckets params.va_percent params.tick_size
                ≡ some va)))
      × (va.high ⊖ va.low ≼ params.max_va_width_atr ⊗ daily)
      × IsReentry ny va candles params s
      × (s.open_distance ≼ params.max_open_distance_atr ⊗ daily)

  -- The signal of a setup, with its prices and their bounds.
  abbrev pub IsBuilt : ValueParameters D → D → ValueArea D → TraversalSetup D → Signal D → Type 0
  IsBuilt params atr_value va setup s =
      let p = traversal_prices setup va atr_value params in
      (s.direction ≡ setup.direction)
      × (prices_of s ≡ go_on p)
      × WithinBounds setup.direction atr_value params p

  -- What the filters and the setup leave of the area.
  abbrev InArea :
      NewYork
      → ValueParameters D
      → List (Candle D)
      → D
      → D
      → ValueArea D
      → TraversalSetup D
      → Signal D
      → Type 0
  InArea ny params candles atr_value daily va setup s =
      (va.high ⊖ va.low ≼ params.max_va_width_atr ⊗ daily)
      × IsReentry ny va candles params setup
      × (setup.open_distance ≼ params.max_open_distance_atr ⊗ daily)
      × IsBuilt params atr_value va setup s

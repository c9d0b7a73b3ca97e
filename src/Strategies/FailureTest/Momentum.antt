-- ===== src/Strategies/FailureTest/Momentum.antt =====
-- The difference of two averages and what is read from its course: the second half of context.rs.
use daytradebot.Base.{
  ℕ, zero, suc, ◌+◌, ◌-◌, Bool, false, ◌&&◌, ◌||◌, Option, none, some, List, [], ◌∷◌, length, map,
  foldl, reverse, take, drop, get_elem?, get_last?, leb, ltb, ◌==◌, if◌then◌else◌,
}
use daytradebot.Decimal.{Decimal, ◌⊖◌, ◌⊗◌, ◌⊘◌, le, lt, max, min}
use daytradebot.Indicators.{ema, atr, total}
use daytradebot.Domain.Market.{Candle, range}
use daytradebot.Strategies.FailureTest.Params.{FailureParameters}

module _ {D : Type 0} ⦃d : Decimal D⦄ where
  abbrev pub closes : List (Candle D) → List D
  closes candles = map (λ c. c.close) candles

  abbrev pub lows : List (Candle D) → List D
  lows candles = map (λ c. c.low) candles

  unfoldable pub sma_values : List D → ℕ → Option D
  sma_values values period =
      if ltb (length values) period || period == 0
      then none
      else some (total (take period (reverse values)) ⊘ d.of_ℕ period)

  abbrev pub difference : Option D → Option D → Option D
  difference (some fast) (some slow) = some (fast ⊖ slow)
  difference _ _ = none

  unfoldable pub macd_fast_value : List D → ℕ → ℕ → Option D
  macd_fast_value values fast_period slow_period =
      difference (sma_values values fast_period) (sma_values values slow_period)

  -- The values up to each index from one on, so many.
  unfoldable pub macd_from : List D → ℕ → ℕ → ℕ → ℕ → List (Option D)
  macd_from values fast_period slow_period i zero = []
  macd_from values fast_period slow_period i (suc n) =
      macd_fast_value (take (i + 1) values) fast_period slow_period
      ∷ macd_from values fast_period slow_period (i + 1) n

  abbrev pub macd_fast_series : List D → ℕ → ℕ → List (Option D)
  macd_fast_series values fast_period slow_period =
      macd_from values fast_period slow_period 0 (length values)

  abbrev pub series_of : List (Candle D) → FailureParameters D → List (Option D)
  series_of candles params =
      macd_fast_series (closes candles) params.macd_fast_sma params.macd_slow_sma

  -- `flatten`, `min` and `max`
  unfoldable pub present : List (Option D) → List D
  present [] = []
  present (none ∷ os) = present os
  present (some v ∷ os) = v ∷ present os

  abbrev pub least : List D → Option D
  least [] = none
  least (v ∷ vs) = some (foldl min v vs)

  abbrev pub greatest : List D → Option D
  greatest [] = none
  greatest (v ∷ vs) = some (foldl max v vs)

  -- The low of a candle at or under the lower channel.
  abbrev pub under_channel : FailureParameters D → Option (Candle D) → Option D → Option D → Bool
  under_channel params (some c) (some ema_value) (some atr_value) =
      le c.low (ema_value ⊖ params.keltner_atr_mult ⊗ atr_value)
  under_channel params _ _ _ = false

  unfoldable pub touched_from : List (Candle D) → FailureParameters D → ℕ → ℕ → Bool
  touched_from candles params i zero = false
  touched_from candles params i (suc n) =
      let prefix = take (i + 1) candles in
      under_channel params (get_elem? candles i) (ema prefix params.keltner_ema_period)
        (atr prefix params.atr_period)
      || touched_from candles params (i + 1) n

  abbrev pub touched_lower_keltner : List (Candle D) → FailureParameters D → Bool
  touched_lower_keltner candles params =
      let start = length candles - params.climax_lookback_candles in
      touched_from candles params start (length candles - start)

  abbrev pub close_of : Option (Candle D) → D
  close_of none = d.nought
  close_of (some c) = c.close

  abbrev pub fell_from : D → D → Option D → Bool
  fell_from least_fall last_close none = false
  fell_from least_fall last_close (some swing_high) = le least_fall (swing_high ⊖ last_close)

  unfoldable pub drop_from_swing_high : List (Candle D) → FailureParameters D → D → Bool
  drop_from_swing_high candles params atr_value =
      fell_from (params.overextension_atr_mult ⊗ atr_value) (close_of (get_last? candles)) (
        greatest
          (map (λ c. c.high) (drop (length candles - params.level_lookback_candles) candles)))

  -- A new low of the price without one of the momentum.
  abbrev pub diverges : Option D → Option D → Option D → Option D → Bool
  diverges (some prior_low) (some recent_low) (some prior_min) (some recent_min) =
      lt recent_low prior_low && lt prior_min recent_min
  diverges _ _ _ _ = false

  unfoldable pub macd_divergence : List (Candle D) → FailureParameters D → Bool
  macd_divergence candles params =
      let split = length candles - 3 in
      leb (params.macd_lookback_candles + 3) (length candles)
      && diverges (least (lows (take split candles))) (least (lows (drop split candles)))
          (least (present (series_of (take split candles) params)))
          (least (present (drop split (series_of candles params))))

  abbrev pub at_least_value : Option (Option D) → Option D → Bool
  at_least_value (some (some current)) (some least_value) = le current least_value
  at_least_value _ _ = false

  -- A last bar that is large, with a momentum that is the least of the window.
  unfoldable pub climax_in_progress : List (Candle D) → FailureParameters D → D → Bool
  climax_in_progress candles params atr_value = elim (get_last? candles) [
    | none ↦ false
    | some last ↦
        let series = series_of candles params in
        lt (params.climax_bar_atr_mult ⊗ atr_value) (range last)
        && at_least_value (get_last? series)
            (least (present (drop (length series - params.macd_lookback_candles) series)))
  ]

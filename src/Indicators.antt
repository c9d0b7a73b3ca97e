-- ===== src/Indicators.antt =====
-- Indicators over a series of candles: crates/trader-core/src/indicators/mod.rs. `none` is too short
-- a series, or a divisor of zero.
use daytradebot.Base.{
  ℕ, ◌+◌, ◌<◌, ◌≤◌, ◌≡◌, ◌↔◌, Bool, ◌||◌, Option, none, some, List, [], ◌∷◌, map, foldl, arith, ltb,
  ◌==◌, if◌then◌else◌, length, get_last?, take_last, drop, reverse,
}
use daytradebot.Decimal.{Decimal, ◌⊕◌, ◌⊖◌, ◌⊗◌, ◌⊘◌, max, min, is_zero}
use daytradebot.Domain.Market.{Candle}

module _ {D : Type 0} ⦃d : Decimal D⦄ where
  abbrev pub is_short : List (Candle D) → ℕ → Bool
  is_short candles period = ltb (length candles) period || period == 0

  -- The last `period` values, the newest first, as `rev().take(period)` yields them, and their sum.
  abbrev pub newest : (Candle D → D) → List (Candle D) → ℕ → List D
  newest field candles period = map field (reverse (take_last period candles))

  abbrev pub total : List D → D
  total = foldl (λ a b. a ⊕ b) d.nought

  unfoldable pub sma : List (Candle D) → ℕ → Option D
  sma candles period =
      if is_short candles period
      then none
      else some (total (newest (λ c. c.close) candles period) ⊘ d.of_ℕ period)

  abbrev pub ema_step : D → D → Candle D → D
  ema_step multiplier value c = (c.close ⊖ value) ⊗ multiplier ⊕ value

  unfoldable pub ema : List (Candle D) → ℕ → Option D
  ema candles period = if is_short candles period then none else elim (sma candles period) [
    | none ↦ none
    | some seed ↦
        some (
          foldl (ema_step (d.of_ℕ 2 ⊘ d.of_ℕ (period + 1))) seed
            (drop 1 (take_last period candles)))
  ]

  abbrev pub true_range : Candle D → Candle D → D
  true_range previous current =
      max (max (current.high ⊖ current.low) (d.abs (current.high ⊖ previous.close)))
        (d.abs (current.low ⊖ previous.close))

  -- The true ranges of neighbours, added from the left.
  unfoldable pub range_sum : D → List (Candle D) → D
  range_sum acc [] = acc
  range_sum acc (a ∷ []) = acc
  range_sum acc (a ∷ b ∷ rest) = range_sum (acc ⊕ true_range a b) (b ∷ rest)

  unfoldable pub atr : List (Candle D) → ℕ → Option D
  atr candles period =
      if ltb (length candles) (period + 1) || period == 0
      then none
      else some (range_sum d.nought (take_last (period + 1) candles) ⊘ d.of_ℕ period)

  unfoldable pub atr_percent : List (Candle D) → ℕ → Option D
  atr_percent candles period = elim (atr candles period) [
    | none ↦ none
    | some range ↦ elim (get_last? candles) [
      | none ↦ none
      | some c ↦ if is_zero c.close then none else some ((range ⊘ c.close) ⊗ d.of_ℕ 100)
    ]
  ]

  unfoldable pub relative_volume : List (Candle D) → ℕ → Option D
  relative_volume candles period =
      if is_short candles period
      then none
      else (let average = total (newest (λ c. c.volume) candles period) ⊘ d.of_ℕ period in
          if is_zero average
          then none
          else elim (get_last? candles) [ none ↦ none | some c ↦ some (c.volume ⊘ average) ])

  -- `Iterator::max` keeps the last of equal values, and `min` the first.
  extreme : (D → D → D) → List D → Option D
  extreme pick [] = none
  extreme pick (a ∷ as') = some (foldl pick a as')

  unfoldable pub highest_high : List (Candle D) → ℕ → Option D
  unfolding extreme
  highest_high candles period =
      if is_short candles period then none else extreme max (newest (λ c. c.high) candles period)

  unfoldable pub lowest_low : List (Candle D) → ℕ → Option D
  unfolding extreme
  lowest_low candles period =
      if is_short candles period then none else extreme min (newest (λ c. c.low) candles period)

  unfoldable pub range_percent : List (Candle D) → Option D
  range_percent candles = elim (get_last? candles) [
    | none ↦ none
    | some c ↦ if is_zero c.close then none else some (((c.high ⊖ c.low) ⊘ c.close) ⊗ d.of_ℕ 100)
  ]

  -- An average is there exactly for a positive period that the series covers.
  pub ema_iff :
      (cs : List (Candle D)) (period : ℕ)
      → ((v : D) × (ema cs period ≡ some v)) ↔ ((0 < period) × (period ≤ length cs))
  unfolding ema sma
  ema_iff cs period = (
    λ (v, e). (ground arith, ground arith),
    λ (p, q). (
      foldl (ema_step (d.of_ℕ 2 ⊘ d.of_ℕ (period + 1)))
          (total (newest (λ c. c.close) cs period) ⊘ d.of_ℕ period) (drop 1 (take_last period cs)),
      ground arith,
    ),
  )

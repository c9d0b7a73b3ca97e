-- ===== src/Strategies/FirstPullback/Level.antt =====
-- The level of resistance and the bar that breaks it: context.rs.
use daytradebot.Base.{
  ℕ, ◌+◌, ◌-◌, ◌*◌, Bool, false, ◌&&◌, ◌||◌, Option, none, some, List, [], ◌∷◌, length, map,
  get_elem?, leb, ltb, ◌==◌, if◌then◌else◌,
}
use daytradebot.Decimal.{Decimal, ◌⊕◌, ◌⊖◌, ◌⊗◌, ◌⊘◌, le, lt, is_zero}
use daytradebot.Session.{NewYork}
use daytradebot.Indicators.{total}
use daytradebot.Domain.Market.{Candle, range}
use daytradebot.Domain.Signals.{RejectionReason}
use daytradebot.Risk.{Check, go_on, reject_if, ◌>>=◌, ◌>>◌}
use daytradebot.Strategies.Checks.{needed, last_in_hours, slice, highest}
use daytradebot.Strategies.FirstPullback.Params.{FirstPullbackParameters}

pub record ResistanceLevel (D : Type 0) : Type 0 where
  pub price : D
  pub touches : ℕ

pub record Breakout (D : Type 0) : Type 0 where
  pub index : ℕ
  pub level : ResistanceLevel D
  pub range_ratio : D
  pub volume_ratio : D

module _ {D : Type 0} ⦃d : Decimal D⦄ where
  unfoldable pub check_hours :
      NewYork → List (Candle D) → FirstPullbackParameters D → Check (Unit {0})
  check_hours ny candles params =
      last_in_hours ny params.trading_start_time params.trading_end_time candles

  -- The average over the candles before an index: `avg_range` and `avg_volume`.
  abbrev pub avg_until : (Candle D → D) → List (Candle D) → ℕ → ℕ → Option D
  avg_until f candles end_exclusive period =
      if ltb end_exclusive period || ltb (length candles) end_exclusive || period == 0
      then none
      else some
          (total (map f (slice (end_exclusive - period) end_exclusive candles)) ⊘ d.of_ℕ period)

  abbrev pub avg_range : List (Candle D) → ℕ → ℕ → Option D
  avg_range = avg_until range

  abbrev pub avg_volume : List (Candle D) → ℕ → ℕ → Option D
  avg_volume = avg_until (λ c. c.volume)

  unfoldable pub closes_over : D → List (Candle D) → Bool
  closes_over price [] = false
  closes_over price (c ∷ cs) = lt price c.close || closes_over price cs

  unfoldable pub count_touches : D → List (Candle D) → ℕ
  count_touches least [] = 0
  count_touches least (c ∷ cs) =
      let rest = count_touches least cs in if le least c.high then rest + 1 else rest

  -- A value to its average, one where there is no average.
  abbrev pub ratio_to : D → Option D → D
  ratio_to value none = if is_zero d.unity then d.nought else value ⊘ d.unity
  ratio_to value (some average) = if is_zero average then d.nought else value ⊘ average

  -- The candles that the level is the greatest high of, and the level.
  abbrev pub lookback : List (Candle D) → ℕ → FirstPullbackParameters D → List (Candle D)
  lookback candles index params = slice (index - params.level_lookback_candles) index candles

  abbrev pub level_of : List (Candle D) → ℕ → FirstPullbackParameters D → ResistanceLevel D
  level_of candles index params =
      let price = highest (lookback candles index params) in
      record {
        price = price;
        touches =
            count_touches (price ⊖ price ⊗ params.level_touch_tolerance_pct)
              (lookback candles index params);
      }

  -- A close over the level in the candles before the lookback.
  abbrev pub is_second_attempt : List (Candle D) → ℕ → FirstPullbackParameters D → Bool
  is_second_attempt candles index params =
      let lookback_start = index - params.level_lookback_candles in
      ltb 0 lookback_start
      && closes_over (level_of candles index params).price
          (slice (index - 2 * params.level_lookback_candles) lookback_start candles)

  abbrev pub measured : List (Candle D) → ℕ → Candle D → FirstPullbackParameters D → Breakout D
  measured candles index bar params = record {
    index = index;
    level = level_of candles index params;
    range_ratio = ratio_to (range bar) (avg_range candles index params.avg_period);
    volume_ratio = ratio_to bar.volume (avg_volume candles index params.avg_period);
  }

  unfoldable pub detect_breakout :
      List (Candle D) → ℕ → D → FirstPullbackParameters D → Check (Breakout D)
  detect_breakout candles index atr_value params =
      let level = level_of candles index params in
      do
        reject_if (ltb index params.level_lookback_candles || leb (length candles) index)
            RejectionReason.incomplete_setup
        bar ← needed (get_elem? candles index)
        reject_if (le bar.close (level.price ⊕ params.breakout_close_atr_mult ⊗ atr_value))
            RejectionReason.incomplete_setup
        reject_if (is_second_attempt candles index params) RejectionReason.breakout_already_taken
        reject_if (ltb level.touches params.level_min_touches)
            RejectionReason.resistance_level_not_found
        reject_if
            (lt (measured candles index bar params).range_ratio params.breakout_range_mult
              || lt (measured candles index bar params).volume_ratio params.breakout_volume_mult)
            RejectionReason.weak_breakout
        go_on (measured candles index bar params)

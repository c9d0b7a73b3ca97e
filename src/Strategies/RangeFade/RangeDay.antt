-- ===== src/Strategies/RangeFade/RangeDay.antt =====
-- Whether the day is one without a trend: the first half of context.rs. The start of the day and the
-- average range of a day are those of the strategy on value areas, which computes them alike.
use daytradebot.Base.{
  ℕ, ◌+◌, ◌-◌, Bool, false, ◌&&◌, ◌||◌, Option, none, some, List, [], ◌∷◌, length, take, drop, leb,
  ◌==◌, if◌then◌else◌,
}
use daytradebot.Decimal.{Decimal, ◌⊖◌, ◌⊗◌, ◌⊘◌, le, lt, is_zero}
use daytradebot.Session.{NewYork}
use daytradebot.Indicators.{ema}
use daytradebot.Domain.Market.{Candle}
use daytradebot.Domain.Signals.{RejectionReason}
use daytradebot.Risk.{Check, go_on, reject_if, ◌>>=◌, ◌>>◌}
use daytradebot.Strategies.Checks.{needed, slice, highest, lowest, last_in_hours}
use daytradebot.Strategies.ValueArea.Days.{current_day_start}
use daytradebot.Strategies.RangeFade.Params.{FadeParameters}

module _ {D : Type 0} ⦃d : Decimal D⦄ where
  unfoldable pub check_hours : NewYork → List (Candle D) → FadeParameters D → Check (Unit {0})
  check_hours ny candles params =
      last_in_hours ny params.trading_start_time params.trading_end_time candles

  -- The greatest high and the least low of the day up to the last candle but one.
  unfoldable pub day_extremes_before_signal : NewYork → List (Candle D) → Option (D × D)
  day_extremes_before_signal ny candles =
      let start = current_day_start ny candles in
      let before = slice start (length candles - 1) candles in
      if leb (length candles - 1) start then none else some (highest before, lowest before)

  abbrev pub today : NewYork → List (Candle D) → List (Candle D)
  today ny candles = drop (current_day_start ny candles) candles

  abbrev pub day_range : NewYork → List (Candle D) → D
  day_range ny candles = highest (today ny candles) ⊖ lowest (today ny candles)

  abbrev pub is_top : Candle D → Candle D → Candle D → Candle D → Candle D → Bool
  is_top a b c e f = lt b.high c.high && lt a.high c.high && le e.high c.high && le f.high c.high

  abbrev pub is_bottom : Candle D → Candle D → Candle D → Candle D → Candle D → Bool
  is_bottom a b c e f = lt c.low b.low && lt c.low a.low && le c.low e.low && le c.low f.low

  -- The highs of the pivots, with two candles on each side, the latest first; the source holds their
  -- indices.
  unfoldable pub tops : List D → List (Candle D) → List D
  tops acc (a ∷ b ∷ c ∷ e ∷ f ∷ rest) =
      tops (if is_top a b c e f then c.high ∷ acc else acc) (b ∷ c ∷ e ∷ f ∷ rest)
  tops acc cs = acc

  unfoldable pub bottoms : List D → List (Candle D) → List D
  bottoms acc (a ∷ b ∷ c ∷ e ∷ f ∷ rest) =
      bottoms (if is_bottom a b c e f then c.low ∷ acc else acc) (b ∷ c ∷ e ∷ f ∷ rest)
  bottoms acc cs = acc

  -- The candles that a pivot of the last ones has about it: two more than those, where there are.
  abbrev pub about_last : ℕ → List (Candle D) → List (Candle D)
  about_last n candles = drop (length candles - n - 2) candles

  -- Both extremes rise, or both fall.
  abbrev pub moves : List D → List D → Bool
  moves (h ∷ h' ∷ highs) (l ∷ l' ∷ lows) = lt h' h && lt l' l || lt h h' && lt l l'
  moves highs lows = false

  unfoldable pub has_trend_structure : List (Candle D) → ℕ → Bool
  has_trend_structure candles lookback =
      moves (tops [] (about_last lookback candles)) (bottoms [] (about_last lookback candles))

  abbrev pub flatness : ℕ → Option D → Option D → Option D
  flatness lookback (some ema_now) (some ema_then) =
      if is_zero ema_now
      then none
      else some (d.abs (ema_now ⊖ ema_then) ⊘ d.of_ℕ lookback ⊘ ema_now)
  flatness lookback _ _ = none

  -- A lookback of nought, where the source would read beyond the series and panic, has no slope.
  unfoldable pub ema_slope_per_bar : List (Candle D) → ℕ → Option D
  ema_slope_per_bar candles lookback =
      if leb (length candles) lookback || lookback == 0
      then none
      else flatness lookback (ema candles 20)
          (ema (take (length candles - lookback + 1) candles) 20)

  unfoldable pub check_range_day :
      NewYork → List (Candle D) → D → FadeParameters D → Check (Unit {0})
  check_range_day ny candles daily_atr_value params = do
    slope ← needed (ema_slope_per_bar candles params.structure_lookback)
    reject_if (le params.max_ema_slope_pct_per_bar slope) RejectionReason.not_a_range_day
    reject_if (has_trend_structure candles params.structure_lookback)
        RejectionReason.not_a_range_day
    reject_if (le (params.max_day_range_atr_mult ⊗ daily_atr_value) (day_range ny candles))
        RejectionReason.not_a_range_day
    go_on tt

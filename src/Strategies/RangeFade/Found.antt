-- ===== src/Strategies/RangeFade/Found.antt =====
-- What the check of the day and the detection of the setup establish.
use daytradebot.Base.{◌≡◌, subst, true, false, ◌&&◌, not, some, List, arith, get_last?}
use daytradebot.Decimal.{Decimal, ◌⊖◌, ◌⊗◌, le, is_zero, ◌≼◌, ◌≺◌}
use daytradebot.Session.{NewYork}
use daytradebot.Domain.Market.{Candle, range}
use daytradebot.Domain.Signals.{Direction, long, short, RejectionReason}
use daytradebot.Risk.{go_on}
use daytradebot.Strategies.Checks.{needed, bind-go_on, reject_if-go_on, go_on-inj, needed-go_on}
use daytradebot.Strategies.RangeFade.Params.{FadeParameters}
use daytradebot.Strategies.RangeFade.RangeDay.{
  check_range_day, day_extremes_before_signal, day_range, ema_slope_per_bar, has_trend_structure,
}
use daytradebot.Strategies.RangeFade.Vetoes.{ema_side_veto}
use daytradebot.Strategies.RangeFade.Setup.{
  FadeSetup, broken_side, is_strong_fade, fade_of, detect_fade,
}

module _ {D : Type 0} ⦃d : Decimal D⦄ where
  -- A day without a trend: the average is flat, the pivots do not move one way, the range is small.
  abbrev pub IsRangeDay : NewYork → List (Candle D) → D → FadeParameters D → Type 0
  IsRangeDay ny candles daily_atr_value params =
      (slope : D) × ((ema_slope_per_bar candles params.structure_lookback ≡ some slope)
        × (slope ≺ params.max_ema_slope_pct_per_bar)
        × (has_trend_structure candles params.structure_lookback ≡ false)
        × (day_range ny candles ≺ params.max_day_range_atr_mult ⊗ daily_atr_value))

  pub check_range_day-IsRangeDay :
      (ny : NewYork) (candles : List (Candle D)) (daily_atr_value : D) (params : FadeParameters D)
      → check_range_day ny candles daily_atr_value params ≡ go_on tt
      → IsRangeDay ny candles daily_atr_value params
  unfolding check_range_day
  check_range_day-IsRangeDay ny candles daily_atr_value params h =
      let (slope, (e0, h0)) =
        bind-go_on (needed (ema_slope_per_bar candles params.structure_lookback)) _ tt h in
      let (e1, h1) =
        reject_if-go_on (le params.max_ema_slope_pct_per_bar slope) RejectionReason.not_a_range_day
          _ tt h0 in
      let (e2, h2) =
        reject_if-go_on (has_trend_structure candles params.structure_lookback)
          RejectionReason.not_a_range_day _ tt h1 in
      let (e3, h3) =
        reject_if-go_on
          (le (params.max_day_range_atr_mult ⊗ daily_atr_value) (day_range ny candles))
          RejectionReason.not_a_range_day _ tt h2 in
      (
        slope,
        (
          needed-go_on (ema_slope_per_bar candles params.structure_lookback) slope e0,
          ground arith,
          e2,
          ground arith,
        ),
      )

  -- The bar goes beyond an extreme, by so much at most: over the high for a sale, under the low for a
  -- purchase.
  abbrev pub Breaks : Direction → Candle D → D → D → D → Type 0
  Breaks long bar prev_high prev_low max_ext =
      (d.nought ≺ prev_low ⊖ bar.low) × (prev_low ⊖ bar.low ≼ max_ext)
  Breaks short bar prev_high prev_low max_ext =
      (d.nought ≺ bar.high ⊖ prev_high) × (bar.high ⊖ prev_high ≼ max_ext)

  broken_side-Breaks :
      (direction : Direction) (bar : Candle D) (prev_high prev_low max_ext extreme extension : D)
      → broken_side bar (prev_high, prev_low) max_ext ≡ go_on (direction, (extreme, extension))
      → Breaks direction bar prev_high prev_low max_ext
  unfolding broken_side
  broken_side-Breaks long bar prev_high prev_low max_ext extreme extension h =
      (ground arith, ground arith)
  broken_side-Breaks short bar prev_high prev_low max_ext extreme extension h =
      (ground arith, ground arith)

  -- The last bar breaks an extreme of the day before it, and is a strong one the other way.
  abbrev pub IsFade : NewYork → List (Candle D) → D → FadeParameters D → FadeSetup D → Type 0
  IsFade ny candles atr_value params setup =
      (prev_high : D) × ((prev_low : D) × ((day_extremes_before_signal ny candles
            ≡ some (prev_high, prev_low))
          × (get_last? candles ≡ some setup.bar)
          × Breaks setup.direction setup.bar prev_high prev_low
              (params.max_extension_atr_mult ⊗ atr_value)
          × ((params.use_ema_side_rule && ema_side_veto candles setup.direction) ≡ false)
          × (is_strong_fade setup.direction setup.bar params ≡ true)))

  pub detect_fade-IsFade :
      (ny : NewYork) (candles : List (Candle D)) (atr_value : D) (params : FadeParameters D)
      (setup : FadeSetup D)
      → detect_fade ny candles atr_value params ≡ go_on setup
      → IsFade ny candles atr_value params setup
  unfolding detect_fade
  detect_fade-IsFade ny candles atr_value params setup h =
      let (bar, (e0, h0)) = bind-go_on (needed (get_last? candles)) _ setup h in
      let ((prev_high, prev_low), (e1, h1)) =
        bind-go_on (needed (day_extremes_before_signal ny candles)) _ setup h0 in
      let ((direction, (extreme, extension)), (e2, h2)) =
        bind-go_on
          (broken_side bar (prev_high, prev_low) (params.max_extension_atr_mult ⊗ atr_value)) _
          setup h1 in
      let (e3, h3) =
        reject_if-go_on (params.use_ema_side_rule && ema_side_veto candles direction)
          RejectionReason.wrong_side_of_ema _ setup h2 in
      let (e4, h4) =
        reject_if-go_on (is_zero (range bar)) RejectionReason.weak_confirmation _ setup h3 in
      let made = fade_of bar (direction, (extreme, extension)) atr_value in
      let (e5, h5) =
        reject_if-go_on (not (is_strong_fade direction bar params))
          RejectionReason.weak_confirmation (go_on made) setup h4 in
      subst (IsFade ny candles atr_value params) (go_on-inj made setup h5) (
        prev_high,
        (
          prev_low,
          (
            needed-go_on (day_extremes_before_signal ny candles) (prev_high, prev_low) e1,
            needed-go_on (get_last? candles) bar e0,
            broken_side-Breaks direction bar prev_high prev_low
                (params.max_extension_atr_mult ⊗ atr_value) extreme extension e2,
            e3,
            ground arith,
          ),
        ),
      )

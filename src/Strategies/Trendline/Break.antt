-- ===== src/Strategies/Trendline/Break.antt =====
-- The line through the two pivots and the leg that breaks it: the rest of context.rs.
use daytradebot.Base.{
  ℕ, zero, suc, ◌+◌, ◌-◌, Bool, false, not, ◌||◌, Option, none, some, List, length, take, leb, ltb,
  if◌then◌else◌,
}
use daytradebot.Decimal.{Decimal, ◌⊕◌, ◌⊖◌, ◌⊗◌, ◌⊘◌, lt}
use daytradebot.Session.{NewYork}
use daytradebot.Indicators.{ema}
use daytradebot.Domain.Market.{Candle}
use daytradebot.Domain.Signals.{RejectionReason}
use daytradebot.Risk.{Check, go_on, reject, reject_if, ◌>>=◌, ◌>>◌}
use daytradebot.Strategies.Checks.{last_in_hours}
use daytradebot.Strategies.Trendline.Params.{TrendlineParameters}
use daytradebot.Strategies.Trendline.Trend.{
  TrendKind, bear, bull, TrendContext, scan, high_at, low_at, close_at,
}

pub record TrendlineBreak (D : Type 0) : Type 0 where
  pub index : ℕ
  pub line_value : D
  pub leg_bars : ℕ
  pub closes_beyond_ema : ℕ

module _ {D : Type 0} ⦃d : Decimal D⦄ where
  unfoldable pub check_hours : NewYork → List (Candle D) → TrendlineParameters D → Check (Unit {0})
  check_hours ny candles params =
      last_in_hours ny params.trading_start_time params.trading_end_time candles

  abbrev pub pivot_price : TrendKind → List (Candle D) → ℕ → D
  pivot_price bear candles i = high_at candles i
  pivot_price bull candles i = low_at candles i

  unfoldable pub trendline_value_at : List (Candle D) → TrendContext D → ℕ → Option D
  trendline_value_at candles trend at_index =
      let y1 = pivot_price trend.kind candles trend.line_p1 in
      let y2 = pivot_price trend.kind candles trend.line_p2 in
      let slope = (y2 ⊖ y1) ⊘ d.of_ℕ (trend.line_p2 - trend.line_p1) in
      if leb trend.line_p2 trend.line_p1
      then none
      else some (y2 ⊕ slope ⊗ (d.of_ℕ at_index ⊖ d.of_ℕ trend.line_p2))

  -- Beyond a value on the side of the reversal.
  abbrev pub is_beyond : TrendKind → D → D → Bool
  is_beyond bear value line = lt line value
  is_beyond bull value line = lt value line

  -- How far the leg has come at a candle, on the side of the reversal.
  abbrev pub reach_at : TrendKind → List (Candle D) → ℕ → D
  reach_at bear candles i = high_at candles i
  reach_at bull candles i = low_at candles i

  abbrev pub leg_peak : List (Candle D) → TrendContext D → ℕ
  leg_peak candles trend =
      let start = trend.extreme_index + 1 in
      scan
        (λ i b.
          is_beyond trend.kind (reach_at trend.kind candles i) (reach_at trend.kind candles b))
        start start (length candles - start)

  -- Whether a candle closes beyond the line, where that has a value.
  abbrev pub closes_beyond : TrendKind → D → Option D → Bool
  closes_beyond kind close none = false
  closes_beyond kind close (some line) = is_beyond kind close line

  abbrev pub breaks_at : List (Candle D) → TrendContext D → ℕ → Bool
  breaks_at candles trend i =
      closes_beyond trend.kind (close_at candles i) (trendline_value_at candles trend i)

  -- The first close beyond the line, among so many candles from one on.
  unfoldable pub first_break : List (Candle D) → TrendContext D → ℕ → ℕ → Check (ℕ × D)
  first_break candles trend i zero = reject RejectionReason.no_trendline_break
  first_break candles trend i (suc n) =
      let later = first_break candles trend (i + 1) n in
      elim (trendline_value_at candles trend i) [
        | none ↦ later
        | some line ↦
            if is_beyond trend.kind (close_at candles i) line then go_on (i, line) else later
      ]

  abbrev pub beyond_ema : TrendKind → List (Candle D) → ℕ → Option D → ℕ
  beyond_ema kind candles i none = 0
  beyond_ema kind candles i (some ema_value) =
      if is_beyond kind (close_at candles i) ema_value then 1 else 0

  unfoldable pub count_beyond : TrendKind → List (Candle D) → ℕ → ℕ → ℕ
  count_beyond kind candles i zero = 0
  count_beyond kind candles i (suc n) =
      beyond_ema kind candles i (ema (take (i + 1) candles) 20)
      + count_beyond kind candles (i + 1) n

  -- The leg is long enough, closes often enough beyond the average, and exceeds the last swing.
  abbrev pub has_momentum : List (Candle D) → TrendContext D → TrendlineParameters D → Bool
  has_momentum candles trend params =
      let peak = leg_peak candles trend in
      let leg_bars = peak - trend.extreme_index in
      not (
        ltb leg_bars params.break_min_bars
        || ltb (count_beyond trend.kind candles (trend.extreme_index + 1) leg_bars)
            params.break_min_closes_beyond_ema
        || not (is_beyond trend.kind (reach_at trend.kind candles peak) trend.last_counter_swing))

  abbrev pub break_at : List (Candle D) → TrendContext D → ℕ × D → TrendlineBreak D
  break_at candles trend (index, line) =
      let leg_bars = leg_peak candles trend - trend.extreme_index in
      record {
        index = index;
        line_value = line;
        leg_bars = leg_bars;
        closes_beyond_ema = count_beyond trend.kind candles (trend.extreme_index + 1) leg_bars;
      }

  unfoldable pub find_trendline_break :
      List (Candle D) → TrendContext D → TrendlineParameters D → Check (TrendlineBreak D)
  find_trendline_break candles trend params = do
    reject_if (leb (length candles) (trend.extreme_index + 1)) RejectionReason.no_trendline_break
    broken ←
        first_break candles trend (trend.extreme_index + 1)
          (leg_peak candles trend - trend.extreme_index)
    reject_if (ltb params.break_max_age (length candles - 1 - broken.0))
        RejectionReason.break_too_old
    reject_if (not (has_momentum candles trend params)) RejectionReason.break_without_momentum
    go_on (break_at candles trend broken)

-- ===== src/Strategies/Trendline/Trend.antt =====
-- The trend that is to be reversed: the pivots and `detect_trend` of context.rs. A read by index is of a
-- candle of the series; beyond it, where the source never reads, the value is nought.
use daytradebot.Base.{
  ℕ, zero, suc, ◌+◌, ◌-◌, ◌*◌, Bool, true, ◌&&◌, ◌||◌, Option, none, some, List, [], ◌∷◌, length,
  take, get_elem?, leb, ltb, if◌then◌else◌,
}
use daytradebot.Decimal.{Decimal, le, lt}
use daytradebot.Domain.Market.{Candle}
use daytradebot.Domain.Signals.{RejectionReason}
use daytradebot.Risk.{Check, go_on, reject, reject_if, ◌>>◌}
use daytradebot.Strategies.Trendline.Params.{TrendlineParameters}

pub data TrendKind : Type 0 where
  bear bull : TrendKind

pub record TrendContext (D : Type 0) : Type 0 where
  pub kind : TrendKind
  pub extreme_price : D
  pub extreme_index : ℕ
  pub last_counter_swing : D
  pub line_p1 : ℕ
  pub line_p2 : ℕ

-- `(1..=n).all`
unfoldable pub all_up_to : ℕ → (ℕ → Bool) → Bool
all_up_to zero f = true
all_up_to (suc n) f = f (suc n) && all_up_to n f

-- The indices from one on, so many, where a test holds, the latest first.
unfoldable pub indices_where : (ℕ → Bool) → ℕ → ℕ → List ℕ
indices_where f first zero = []
indices_where f first (suc n) =
    let earlier = indices_where f first n in
    if f (first + n) then (first + n) ∷ earlier else earlier

-- Over the indices from one on, so many, the one that no later one is better than.
unfoldable pub scan : (ℕ → ℕ → Bool) → ℕ → ℕ → ℕ → ℕ
scan better best i zero = best
scan better best i (suc n) = scan better (if better i best then i else best) (i + 1) n

-- `pivot_bars.max(1)` and the first index that can be a pivot
abbrev pub one_or_more : ℕ → ℕ
one_or_more n = if leb 1 n then n else 1

abbrev pub first_pivot : ℕ → ℕ → ℕ → ℕ
first_pivot n window p = if leb p (n - window) then n - window else p

-- `pivots`, for the test of a high or of a low, the latest first.
unfoldable pub pivots : (ℕ → ℕ → Bool) → ℕ → ℕ → ℕ → List ℕ
pivots is_pivot n window pivot_bars =
    let p = one_or_more pivot_bars in
    if ltb n (2 * p + 1)
    then []
    else indices_where (is_pivot p) (first_pivot n window p) (n - p - first_pivot n window p)

module _ {D : Type 0} ⦃d : Decimal D⦄ where
  abbrev pub value_at : (Candle D → D) → List (Candle D) → ℕ → D
  value_at f candles i = elim (get_elem? candles i) [ none ↦ d.nought | some c ↦ f c ]

  abbrev pub high_at : List (Candle D) → ℕ → D
  high_at = value_at (λ c. c.high)

  abbrev pub low_at : List (Candle D) → ℕ → D
  low_at = value_at (λ c. c.low)

  abbrev pub close_at : List (Candle D) → ℕ → D
  close_at = value_at (λ c. c.close)

  abbrev pub is_swing_high : List (Candle D) → ℕ → ℕ → Bool
  is_swing_high candles p i =
      all_up_to p (λ k. lt (high_at candles (i - k)) (high_at candles i))
      && all_up_to p (λ k. le (high_at candles (i + k)) (high_at candles i))

  abbrev pub is_swing_low : List (Candle D) → ℕ → ℕ → Bool
  is_swing_low candles p i =
      all_up_to p (λ k. lt (low_at candles i) (low_at candles (i - k)))
      && all_up_to p (λ k. le (low_at candles i) (low_at candles (i + k)))

  -- Lower highs, and an extreme under the last low.
  unfoldable pub bear_of : List (Candle D) → ℕ → List ℕ → List ℕ → Option (TrendContext D)
  bear_of candles extreme (h2 ∷ h1 ∷ highs) (prev_low ∷ lows) =
      if le (high_at candles h1) (high_at candles h2)
        || le (low_at candles prev_low) (low_at candles extreme)
      then none
      else some (record {
        kind = bear;
        extreme_price = low_at candles extreme;
        extreme_index = extreme;
        last_counter_swing = high_at candles h2;
        line_p1 = h1;
        line_p2 = h2;
      })
  bear_of candles extreme highs lows = none

  -- Higher lows, and an extreme over the last high.
  unfoldable pub bull_of : List (Candle D) → ℕ → List ℕ → List ℕ → Option (TrendContext D)
  bull_of candles extreme (prev_high ∷ highs) (l2 ∷ l1 ∷ lows) =
      if le (low_at candles l2) (low_at candles l1)
        || le (high_at candles extreme) (high_at candles prev_high)
      then none
      else some (record {
        kind = bull;
        extreme_price = high_at candles extreme;
        extreme_index = extreme;
        last_counter_swing = low_at candles l2;
        line_p1 = l1;
        line_p2 = l2;
      })
  bull_of candles extreme highs lows = none

  -- `qualify_trend`, with the pivots up to the extreme.
  unfoldable pub qualify_trend :
      List (Candle D) → TrendlineParameters D → ℕ → TrendKind → Option (TrendContext D)
  qualify_trend candles params extreme kind =
      let upto = take (extreme + 1) candles in
      let window = params.trend_lookback + params.break_max_age in
      let highs = pivots (is_swing_high upto) (length upto) window params.pivot_bars in
      let lows = pivots (is_swing_low upto) (length upto) window params.pivot_bars in
      if leb (length candles) (extreme + 1) then none else elim kind [
        | bear ↦ bear_of candles extreme highs lows
        | bull ↦ bull_of candles extreme highs lows
      ]

  -- The later extreme of the two trends, if there is one.
  abbrev pub later_of : Option (TrendContext D) → Option (TrendContext D) → Check (TrendContext D)
  later_of (some a) (some b) = go_on (if leb b.extreme_index a.extreme_index then a else b)
  later_of (some a) none = go_on a
  later_of none (some b) = go_on b
  later_of none none = reject RejectionReason.no_trend_to_reverse

  -- The window of the trend, which leaves room for the leg and the test after it.
  abbrev pub window_start : List (Candle D) → TrendlineParameters D → ℕ
  window_start candles params = length candles - (params.trend_lookback + params.break_max_age)

  abbrev pub last_candidate : List (Candle D) → TrendlineParameters D → ℕ
  last_candidate candles params = length candles - (params.break_min_bars + 2 + 1)

  abbrev pub best_in_window : (ℕ → ℕ → Bool) → List (Candle D) → TrendlineParameters D → ℕ
  best_in_window better candles params =
      let from = window_start candles params in
      scan better from from (last_candidate candles params + 1 - from)

  abbrev pub lowest_index : List (Candle D) → TrendlineParameters D → ℕ
  lowest_index candles params =
      best_in_window (λ i b. lt (low_at candles i) (low_at candles b)) candles params

  abbrev pub highest_index : List (Candle D) → TrendlineParameters D → ℕ
  highest_index candles params =
      best_in_window (λ i b. lt (high_at candles b) (high_at candles i)) candles params

  unfoldable pub detect_trend : List (Candle D) → TrendlineParameters D → Check (TrendContext D)
  detect_trend candles params = do
    reject_if (ltb (length candles) (window_start candles params + 2 * params.pivot_bars + 3))
        RejectionReason.no_trend_to_reverse
    reject_if (leb (last_candidate candles params) (window_start candles params))
        RejectionReason.no_trend_to_reverse
    later_of (qualify_trend candles params (lowest_index candles params) bear)
        (qualify_trend candles params (highest_index candles params) bull)

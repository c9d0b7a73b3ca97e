-- ===== src/Strategies/ValueArea/Days.antt =====
-- The days of the series, the average range of a day, and the slope of the average: context.rs. A
-- series read backwards is reversed here, so that today comes first.
use daytradebot.Base.{
  ℕ, suc, ◌+◌, ◌-◌, Bool, true, ◌||◌, Option, none, some, List, [], ◌∷◌, ◌++◌, length, take, drop,
  reverse, leb, ltb, ◌==◌, get_last?, if◌then◌else◌,
}
use daytradebot.Decimal.{Decimal, ◌⊕◌, ◌⊖◌, ◌⊘◌, lt, max, min, is_zero}
use daytradebot.Session.{NewYork, et_date}
use daytradebot.Indicators.{ema}
use daytradebot.Domain.Market.{Candle}
use daytradebot.Domain.Signals.{Direction, long, short}
use daytradebot.Risk.{Check}
use daytradebot.Strategies.Checks.{last_in_hours}
use daytradebot.Strategies.ValueArea.Params.{ValueParameters}

module _ {D : Type 0} ⦃d : Decimal D⦄ where
  -- How many candles in a row have that date.
  unfoldable pub same_day : NewYork → ℕ → List (Candle D) → ℕ
  same_day ny day [] = 0
  same_day ny day (c ∷ older) =
      let rest = same_day ny day older in if et_date ny c.timestamp == day then rest + 1 else 0

  -- The candles of the first one's day.
  abbrev pub first_day : NewYork → List (Candle D) → ℕ
  first_day ny [] = 0
  first_day ny (c ∷ older) = suc (same_day ny (et_date ny c.timestamp) older)

  unfoldable pub current_day_start : NewYork → List (Candle D) → ℕ
  current_day_start ny candles = length candles - first_day ny (reverse candles)

  -- The day before the current one, unless it may have begun before the series.
  unfoldable pub previous_day_slice : NewYork → List (Candle D) → Option (List (Candle D))
  previous_day_slice ny candles =
      let before = drop (first_day ny (reverse candles)) (reverse candles) in
      if length before == 0 || length before == first_day ny before
      then none
      else some (reverse (take (first_day ny before) before))

  abbrev pub day_so_far : Option (ℕ × (D × D)) → List D
  day_so_far none = []
  day_so_far (some (day, (hi, lo))) = (hi ⊖ lo) ∷ []

  -- The ranges of the days before today, the latest first.
  unfoldable pub daily_ranges :
      NewYork → ℕ → Option (ℕ × (D × D)) → List D → List (Candle D) → List D
  daily_ranges ny today current ranges [] = day_so_far current ++ ranges
  daily_ranges ny today none ranges (c ∷ cs) =
      let day = et_date ny c.timestamp in
      let rest = daily_ranges ny today (some (day, (c.high, c.low))) ranges cs in
      if leb today day then ranges else rest
  daily_ranges ny today (some (known, (hi, lo))) ranges (c ∷ cs) =
      let day = et_date ny c.timestamp in
      elim (leb today day) [
        | true ↦ (hi ⊖ lo) ∷ ranges
        | _ ↦ elim (known == day) [
          | true ↦ daily_ranges ny today (some (known, (max hi c.high, min lo c.low))) ranges cs
          | _ ↦ daily_ranges ny today (some (day, (c.high, c.low))) ((hi ⊖ lo) ∷ ranges) cs
        ]
      ]

  unfoldable pub total : D → List D → D
  total acc [] = acc
  total acc (v ∷ vs) = total (acc ⊕ v) vs

  unfoldable pub daily_atr : NewYork → List (Candle D) → ℕ → Option D
  daily_atr ny candles period = elim (get_last? candles) [
    | none ↦ none
    | some last ↦
        let ranges = daily_ranges ny (et_date ny last.timestamp) none [] candles in
        if ltb (length ranges) period
        then none
        else some (total d.nought (take period ranges) ⊘ d.of_ℕ period)
  ]

  abbrev pub slope : ℕ → Option D → Option D → Option D
  slope lookback (some ema_now) (some ema_then) =
      if is_zero ema_now then none else some ((ema_now ⊖ ema_then) ⊘ d.of_ℕ lookback ⊘ ema_now)
  slope lookback _ _ = none

  unfoldable pub ema_slope_signed : List (Candle D) → ℕ → Option D
  ema_slope_signed candles lookback =
      if leb (length candles) lookback || lookback == 0
      then none
      else slope lookback (ema candles 20) (ema (take (length candles - lookback + 1) candles) 20)

  abbrev pub trend_against_traversal : D → Direction → D → Bool
  trend_against_traversal slope long threshold = lt slope (d.neg threshold)
  trend_against_traversal slope short threshold = lt threshold slope

  unfoldable pub check_hours : NewYork → List (Candle D) → ValueParameters D → Check (Unit {0})
  check_hours ny candles params =
      last_in_hours ny params.trading_start_time params.trading_end_time candles

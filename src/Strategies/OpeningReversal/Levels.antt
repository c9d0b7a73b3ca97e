-- ===== src/Strategies/OpeningReversal/Levels.antt =====
-- Yesterday's levels, the window of the first hour and the vetoes of momentum: context.rs.
use daytradebot.Base.{
  ℕ, ◌+◌, ◌-◌, Bool, true, false, not, ◌&&◌, Option, none, some, List, [], ◌∷◌, reverse, length,
  take, drop, get_last?, leb, ltb, ◌==◌, if◌then◌else◌,
}
use daytradebot.Decimal.{Decimal, ◌⊘◌, le, lt, max, min, is_zero}
use daytradebot.Session.{NewYork, et_date}
use daytradebot.Domain.Market.{Candle, range, body}
use daytradebot.Risk.{Check}
use daytradebot.Strategies.Checks.{last_in_hours}
use daytradebot.Strategies.OpeningReversal.Params.{StrategyParameters}

pub record YesterdayLevels (D : Type 0) : Type 0 where
  pub high : D
  pub low : D

abbrev pub same_bool : Bool → Bool → Bool
same_bool true b = b
same_bool false b = not b

module _ {D : Type 0} ⦃d : Decimal D⦄ where
  abbrev pub levels_of : Candle D → YesterdayLevels D
  levels_of c = record { high = c.high; low = c.low }

  abbrev pub widen : YesterdayLevels D → Candle D → YesterdayLevels D
  widen l c = record { high = max l.high c.high; low = min l.low c.low }

  -- What is found of yesterday so far: its date and its levels.
  abbrev pub found_levels : Option (ℕ × YesterdayLevels D) → Option (YesterdayLevels D)
  found_levels none = none
  found_levels (some (day, levels)) = some levels

  -- Back from the latest candle: the first date before today is yesterday, up to the date before it.
  unfoldable pub scan_back :
      NewYork → ℕ → Option (ℕ × YesterdayLevels D) → List (Candle D) → Option (YesterdayLevels D)
  scan_back ny today found [] = found_levels found
  scan_back ny today none (c ∷ cs) =
      let date = et_date ny c.timestamp in
      if leb today date
      then scan_back ny today none cs
      else scan_back ny today (some (date, levels_of c)) cs
  scan_back ny today (some (day, levels)) (c ∷ cs) =
      let date = et_date ny c.timestamp in
      if leb today date
      then scan_back ny today (some (day, levels)) cs
      else if day == date
      then scan_back ny today (some (day, widen levels c)) cs
      else some levels

  unfoldable pub yesterday_levels : NewYork → List (Candle D) → Option (YesterdayLevels D)
  yesterday_levels ny candles = elim (get_last? candles) [
    | none ↦ none
    | some last ↦ scan_back ny (et_date ny last.timestamp) none (reverse candles)
  ]

  unfoldable pub check_trading_hours :
      NewYork → List (Candle D) → StrategyParameters D → Check (Unit {0})
  check_trading_hours ny candles params =
      last_in_hours ny params.trading_start_time params.trading_end_time candles

  unfoldable pub body_fraction : Candle D → D
  body_fraction c = if is_zero (range c) then d.nought else body c ⊘ range c

  -- So many candles before the last one.
  abbrev pub before_last : ℕ → List (Candle D) → List (Candle D)
  before_last n candles = take n (drop (length candles - 1 - n) candles)

  unfoldable pub strong_beyond : List (Candle D) → D → Bool → D → ℕ
  strong_beyond [] level against_up body_pct = 0
  strong_beyond (c ∷ cs) level against_up body_pct =
      let rest = strong_beyond cs level against_up body_pct in
      let beyond = if against_up then lt level c.close else lt c.close level in
      if beyond && le body_pct (body_fraction c) then rest + 1 else rest

  unfoldable pub momentum_veto : List (Candle D) → D → Bool → StrategyParameters D → Bool
  momentum_veto candles level against_up params =
      if ltb (length candles) (params.momentum_bars + 1)
      then false
      else leb params.momentum_bars (
          strong_beyond (before_last params.momentum_bars candles) level against_up
            params.momentum_body_pct)

  unfoldable pub trend_bars : List (Candle D) → Bool → D → ℕ
  trend_bars [] against_up body_pct = 0
  trend_bars (c ∷ cs) against_up body_pct =
      let rest = trend_bars cs against_up body_pct in
      if le body_pct (body_fraction c) && same_bool (lt c.«open» c.close) against_up
      then rest + 1
      else rest

  unfoldable pub counter_trend_veto : List (Candle D) → Bool → StrategyParameters D → Bool
  counter_trend_veto candles against_up params =
      if ltb (length candles) (params.counter_window + 1)
      then false
      else leb params.counter_trend_bars (
          trend_bars (before_last params.counter_window candles) against_up
            params.momentum_body_pct)

-- ===== src/Strategies/ValueArea/Setup.antt =====
-- The acceptance inside of yesterday's value after an opening outside: setup.rs.
use daytradebot.Base.{
  ℕ, ◌+◌, ◌-◌, Bool, true, not, ◌&&◌, ◌||◌, List, [], ◌∷◌, length, drop, get_elem?, leb, ltb,
  if◌then◌else◌,
}
use daytradebot.Decimal.{Decimal, ◌⊖◌, lt}
use daytradebot.Session.{NewYork}
use daytradebot.Domain.Market.{Candle}
use daytradebot.Domain.Signals.{Direction, long, short, RejectionReason}
use daytradebot.Risk.{Check, go_on, reject_if, ◌>>=◌, ◌>>◌}
use daytradebot.Strategies.Checks.{needed}
use daytradebot.Strategies.ValueArea.Params.{ValueParameters}
use daytradebot.Strategies.ValueArea.Profile.{ValueArea, contains}
use daytradebot.Strategies.ValueArea.Days.{current_day_start}

-- The signal bar is the last one; the source holds its index.
pub record TraversalSetup (D : Type 0) : Type 0 where
  pub direction : Direction
  pub bar : Candle D
  pub open_today : D
  pub open_distance : D

-- `params.acceptance_bars.max(1)`
abbrev pub at_least_one : ℕ → ℕ
at_least_one n = if leb 1 n then n else 1

module _ {D : Type 0} ⦃d : Decimal D⦄ where
  unfoldable pub all_inside : ValueArea D → List (Candle D) → Bool
  all_inside va [] = true
  all_inside va (c ∷ cs) = contains va c.close && all_inside va cs

  abbrev pub side_of : ValueArea D → D → Direction
  side_of va open_today = if lt open_today va.low then long else short

  abbrev pub distance_to : ValueArea D → D → D
  distance_to va open_today =
      if lt open_today va.low then va.low ⊖ open_today else open_today ⊖ va.high

  -- `detect_setup`; the candles that the source reads by index are there where it reads them.
  unfoldable pub detect_traversal :
      NewYork → List (Candle D) → ValueArea D → ValueParameters D → Check (TraversalSetup D)
  detect_traversal ny candles va params =
      let n = length candles in
      let today_start = current_day_start ny candles in
      let bars = at_least_one params.acceptance_bars in
      do
        first ← needed (get_elem? candles today_start)
        reject_if (contains va first.«open») RejectionReason.open_inside_value_area
        reject_if (ltb n (bars + 1) || ltb (n - bars) today_start)
            RejectionReason.no_value_area_reentry
        reject_if (not (all_inside va (drop (n - bars) candles)))
            RejectionReason.no_value_area_reentry
        before ← needed (get_elem? candles (n - bars - 1))
        reject_if (contains va before.close) RejectionReason.no_value_area_reentry
        bar ← needed (get_elem? candles (n - 1))
        go_on (record {
          direction = side_of va first.«open»;
          bar = bar;
          open_today = first.«open»;
          open_distance = distance_to va first.«open»;
        })

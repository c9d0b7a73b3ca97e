-- ===== src/Strategies/OpeningReversal/Setup.antt =====
-- The setup on the last bar: setup.rs.
use daytradebot.Base.{
  Bool, true, false, not, ◌&&◌, ◌||◌, none, some, List, get_last?, if◌then◌else◌,
}
use daytradebot.Decimal.{Decimal, ◌⊕◌, ◌⊖◌, ◌⊗◌, ◌⊘◌, le, lt, max, min, is_zero}
use daytradebot.Domain.Market.{Candle, range, body}
use daytradebot.Domain.Signals.{Direction, long, short, RejectionReason}
use daytradebot.Risk.{Check, go_on, reject, reject_if, ◌>>=◌, ◌>>◌}
use daytradebot.Strategies.OpeningReversal.Params.{StrategyParameters}
use daytradebot.Strategies.OpeningReversal.Levels.{
  YesterdayLevels, momentum_veto, counter_trend_veto,
}

-- The signal bar is the last one; the source holds its index.
pub record ReversalSetup (D : Type 0) : Type 0 where
  pub direction : Direction
  pub level : D
  pub bar : Candle D
  pub body_pct : D
  pub wick_pct : D

abbrev pub is_short_side : Direction → Bool
is_short_side long = false
is_short_side short = true

module _ {D : Type 0} ⦃d : Decimal D⦄ where
  -- Which of yesterday's levels the bar touches, within the zone around it.
  unfoldable pub tested_level :
      Candle D → YesterdayLevels D → StrategyParameters D → Check (Direction × D)
  tested_level c levels params =
      let touches_high = le (levels.high ⊗ (d.unity ⊖ params.level_zone_pct)) c.high in
      let touches_low = le c.low (levels.low ⊗ (d.unity ⊕ params.level_zone_pct)) in
      if touches_high
      then (if touches_low
          then reject RejectionReason.incomplete_setup
          else go_on (short, levels.high))
      else (if touches_low
          then go_on (long, levels.low)
          else reject RejectionReason.yesterday_level_not_tested)

  abbrev pub third_of_range : Candle D → D
  third_of_range c = range c ⊗ d.of_ℕ 2 ⊘ d.of_ℕ 3

  abbrev pub closes_well : Direction → Candle D → Bool
  closes_well long c = lt c.«open» c.close && le (c.low ⊕ third_of_range c) c.close
  closes_well short c = lt c.close c.«open» && le c.close (c.high ⊖ third_of_range c)

  abbrev pub wick : Direction → Candle D → D
  wick long c = min c.«open» c.close ⊖ c.low
  wick short c = c.high ⊖ max c.«open» c.close

  -- A strong reversal bar: its body, its direction and close, and the wick on the side of the test.
  unfoldable pub is_strong : Direction → Candle D → StrategyParameters D → Bool
  is_strong direction c params =
      le params.signal_body_min_pct (body c ⊘ range c)
      && closes_well direction c
      && le params.signal_wick_min_pct (wick direction c ⊘ range c)

  unfoldable pub is_vetoed : List (Candle D) → D → Direction → StrategyParameters D → Bool
  is_vetoed candles level direction params =
      momentum_veto candles level (is_short_side direction) params
      || counter_trend_veto candles (is_short_side direction) params

  abbrev pub setup_on : Candle D → Direction → D → ReversalSetup D
  setup_on c direction level = record {
    direction = direction;
    level = level;
    bar = c;
    body_pct = body c ⊘ range c;
    wick_pct = wick direction c ⊘ range c;
  }

  abbrev pub confirmed :
      List (Candle D) → Candle D → StrategyParameters D → Direction → D → Check (ReversalSetup D)
  confirmed candles c params direction level = do
    reject_if (is_zero (range c)) RejectionReason.weak_confirmation
    reject_if (not (is_strong direction c params)) RejectionReason.weak_confirmation
    reject_if (is_vetoed candles level direction params) RejectionReason.momentum_against
    go_on (setup_on c direction level)

  -- The series is not empty where the source calls it.
  unfoldable pub detect_setup :
      List (Candle D) → YesterdayLevels D → StrategyParameters D → Check (ReversalSetup D)
  detect_setup candles levels params = elim (get_last? candles) [
    | none ↦ reject RejectionReason.incomplete_setup
    | some c ↦ tested_level c levels params >>= λ found. confirmed candles c params found.0 found.1
  ]

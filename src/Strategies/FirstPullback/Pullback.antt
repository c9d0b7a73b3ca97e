-- ===== src/Strategies/FirstPullback/Pullback.antt =====
-- The pullback from the breakout and the bar that ends it: setup.rs.
use daytradebot.Base.{
  ℕ, ◌+◌, ◌-◌, Bool, false, ◌||◌, List, [], ◌∷◌, length, map, foldl, drop, get_elem?, get_last?,
  ltb,
}
use daytradebot.Decimal.{Decimal, ◌⊖◌, ◌⊗◌, le, lt, max}
use daytradebot.Domain.Market.{Candle}
use daytradebot.Domain.Signals.{RejectionReason}
use daytradebot.Risk.{Check, go_on, reject_if, ◌>>=◌, ◌>>◌}
use daytradebot.Strategies.Checks.{needed, slice, highest, lowest}
use daytradebot.Strategies.FirstPullback.Params.{FirstPullbackParameters}
use daytradebot.Strategies.FirstPullback.Level.{Breakout}

-- The signal bar is the last one; the source holds its index.
pub record PullbackSetup (D : Type 0) : Type 0 where
  pub breakout : Breakout D
  pub bar : Candle D
  pub impulse_high : D
  pub impulse : D
  pub retrace : D
  pub pivot : D

module _ {D : Type 0} ⦃d : Decimal D⦄ where
  unfoldable pub closes_under : D → List (Candle D) → Bool
  closes_under price [] = false
  closes_under price (c ∷ cs) = lt c.close price || closes_under price cs

  -- The greatest low, or another price where there is no candle.
  abbrev pub highest_low : D → List (Candle D) → D
  highest_low other [] = other
  highest_low other (c ∷ cs) = foldl max c.low (map (λ e. e.low) cs)

  abbrev pub after : ℕ → List (Candle D) → List (Candle D)
  after index candles = drop (index + 1) candles

  abbrev pub pivot_of : List (Candle D) → ℕ → Candle D → FirstPullbackParameters D → D
  pivot_of candles index bar_b params =
      highest_low bar_b.low (slice (index - params.pivot_lookback_candles) index candles)

  abbrev pub pulled_back :
      List (Candle D)
      → Breakout D
      → Candle D
      → Candle D
      → FirstPullbackParameters D
      → PullbackSetup D
  pulled_back candles breakout bar_b bar params =
      let impulse_high = highest (drop breakout.index candles) in
      record {
        breakout = breakout;
        bar = bar;
        impulse_high = impulse_high;
        impulse = impulse_high ⊖ bar_b.low;
        retrace = impulse_high ⊖ lowest (after breakout.index candles);
        pivot = pivot_of candles breakout.index bar_b params;
      }

  -- `detect_setup`; the candles that the source reads by index are there where it reads them, with a
  -- lookback of one candle or more.
  unfoldable pub detect_first_pullback :
      List (Candle D) → Breakout D → FirstPullbackParameters D → Check (PullbackSetup D)
  detect_first_pullback candles breakout params =
      let signal_index = length candles - 1 in
      let pullback_len = signal_index - breakout.index in
      do
        reject_if (ltb pullback_len params.pullback_min_candles) RejectionReason.incomplete_setup
        reject_if (ltb params.pullback_max_candles pullback_len) RejectionReason.pullback_too_long
        bar_b ← needed (get_elem? candles breakout.index)
        bar ← needed (get_last? candles)
        let s = pulled_back candles breakout bar_b bar params
        reject_if (le s.impulse d.nought) RejectionReason.incomplete_setup
        reject_if (le s.impulse_high (lowest (after breakout.index candles)))
            RejectionReason.incomplete_setup
        reject_if (lt (params.max_retrace_pct ⊗ s.impulse) s.retrace)
            RejectionReason.pullback_too_deep
        reject_if (closes_under s.pivot (after breakout.index candles))
            RejectionReason.breakout_failed
        previous ← needed (get_elem? candles (signal_index - 1))
        reject_if (le bar.close previous.close) RejectionReason.incomplete_setup
        go_on s

-- ===== src/Strategies/PullbackTrend/Setup.antt =====
-- The bar that ends the pullback: setup.rs. The source counts indices from the oldest candle; here a
-- candle comes with the ones before it, the newest first, and an index is their number.
use text.Mathlib.Text.{◌==◌ as str_eq}
use daytradebot.Base.{
  ℕ, zero, suc, ◌+◌, ◌-◌, Bool, true, not, ◌&&◌, ◌||◌, Option, none, some, List, [], ◌∷◌, length,
  take, reverse, leb, ltb, if◌then◌else◌,
}
use daytradebot.Decimal.{Decimal, ◌⊕◌, ◌⊖◌, ◌⊗◌, ◌⊘◌, le, is_zero}
use daytradebot.Domain.Market.{Candle, range, body, is_bullish}
use daytradebot.Domain.Signals.{RejectionReason}
use daytradebot.Risk.{Check, go_on, reject}
use daytradebot.Strategies.PullbackTrend.Params.{PullbackParameters}

pub record PullbackSetup (D : Type 0) : Type 0 where
  pub signal_index : ℕ
  pub pullback_start_index : ℕ
  pub entry_price : D
  pub stop_price : D
  pub target_price : D

-- `std::cmp::min(max_pullback_candles + 2, candles.len() - 1)`
abbrev pub max_lookback : ℕ → ℕ → ℕ
max_lookback a b = if leb (a + 2) (b - 1) then a + 2 else b - 1

module _ {D : Type 0} ⦃d : Decimal D⦄ where
  -- The share of the range from which the close counts as high.
  abbrev pub least_close : PullbackParameters D → D
  least_close params =
      if str_eq params.signal_close_position "upper_third"
      then d.of_ℕ 2 ⊘ d.of_ℕ 3
      else if str_eq params.signal_close_position "upper_half"
      then d.unity ⊘ d.of_ℕ 2
      else d.of_ℕ 2 ⊘ d.of_ℕ 3

  unfoldable pub is_bullish_signal_bar : Candle D → PullbackParameters D → Bool
  is_bullish_signal_bar c params =
      is_bullish c
      && not (is_zero (body c))
      && le params.min_signal_body_ratio ((c.close ⊖ c.low) ⊘ body c)
      && not (is_zero (range c))
      && le (least_close params) ((c.close ⊖ c.low) ⊘ range c)

  -- How far the highs keep rising from a candle back.
  unfoldable pub climb : Candle D → List (Candle D) → ℕ
  climb highest [] = 0
  climb highest (c ∷ older) =
      let rest = climb c older in if le highest.high c.high then rest + 1 else 0

  -- The candles from the start of the pullback up to the one before the signal bar.
  unfoldable pub pullback_before : List (Candle D) → List (Candle D)
  pullback_before [] = []
  pullback_before (c ∷ older) = take (climb c older + 1) (c ∷ older)

  unfoldable pub is_lowest_low : Candle D → List (Candle D) → Bool
  is_lowest_low bar [] = true
  is_lowest_low bar (c ∷ cs) = le bar.low c.low && is_lowest_low bar cs

  unfoldable pub priced_long : Candle D → List (Candle D) → PullbackParameters D → PullbackSetup D
  priced_long bar older params =
      let entry = bar.high ⊕ params.entry_offset_ticks ⊗ params.tick_size in
      let stop = bar.low ⊖ params.stop_offset_ticks ⊗ params.tick_size in
      record {
        signal_index = length older;
        pullback_start_index = length older - length (pullback_before older);
        entry_price = entry;
        stop_price = stop;
        target_price = entry ⊕ params.reward_multiple ⊗ (entry ⊖ stop);
      }

  -- One round of the loop: a setup, or the next candle back.
  unfoldable pub setup_at :
      Candle D → List (Candle D) → PullbackParameters D → Option (PullbackSetup D)
  setup_at bar older params =
      let s = priced_long bar older params in
      if not (is_bullish_signal_bar bar params)
        || leb (length (pullback_before older)) 0
        || is_lowest_low bar (bar ∷ pullback_before older)
        || le (s.entry_price ⊖ s.stop_price) d.nought
      then none
      else some s

  unfoldable pub search_back : ℕ → List (Candle D) → PullbackParameters D → Check (PullbackSetup D)
  search_back zero candles params = reject RejectionReason.incomplete_setup
  search_back (suc n) [] params = reject RejectionReason.incomplete_setup
  search_back (suc n) (bar ∷ older) params =
      let rest = search_back n older params in
      elim (setup_at bar older params) [ none ↦ rest | some s ↦ go_on s ]

  -- `detect_setup`
  unfoldable pub detect_pullback : List (Candle D) → PullbackParameters D → Check (PullbackSetup D)
  detect_pullback candles params =
      if ltb (length candles) 3
      then reject RejectionReason.incomplete_setup
      else search_back (max_lookback params.max_pullback_candles (length candles)) (reverse candles)
          params

-- ===== src/Strategies/Low2M2sShort/Setup.antt =====
-- The bar that ends the pullback: setup.rs. The source counts indices from the oldest candle; here a
-- candle comes with the ones before it, the newest first, and an index is their number.
use text.Mathlib.Text.{◌==◌ as str_eq}
use daytradebot.Base.{
  ℕ, zero, suc, ◌+◌, ◌-◌, Bool, true, not, ◌&&◌, ◌||◌, Option, none, some, List, [], ◌∷◌, length,
  take, reverse, leb, ltb, if◌then◌else◌,
}
use daytradebot.Decimal.{Decimal, ◌⊕◌, ◌⊖◌, ◌⊗◌, ◌⊘◌, le, is_zero}
use daytradebot.Domain.Market.{Candle, range, body, is_bearish}
use daytradebot.Domain.Signals.{RejectionReason}
use daytradebot.Risk.{Check, go_on, reject}
use daytradebot.Strategies.Low2M2sShort.Params.{Low2Parameters}

pub record Low2Setup (D : Type 0) : Type 0 where
  pub signal_index : ℕ
  pub pullback_start_index : ℕ
  pub entry_price : D
  pub stop_price : D
  pub target_price : D

-- `std::cmp::min(max_pullback_candles + 2, candles.len() - 1)`
abbrev pub max_lookback : ℕ → ℕ → ℕ
max_lookback a b = if leb (a + 2) (b - 1) then a + 2 else b - 1

module _ {D : Type 0} ⦃d : Decimal D⦄ where
  -- The share of the range from which the close counts as low.
  abbrev pub greatest_close : Low2Parameters D → D
  greatest_close params =
      if str_eq params.signal_close_position "lower_third"
      then d.unity ⊘ d.of_ℕ 3
      else if str_eq params.signal_close_position "lower_half"
      then d.unity ⊘ d.of_ℕ 2
      else d.unity ⊘ d.of_ℕ 3

  unfoldable pub is_bearish_signal_bar : Candle D → Low2Parameters D → Bool
  is_bearish_signal_bar c params =
      is_bearish c
      && not (is_zero (body c))
      && le params.min_signal_body_ratio ((c.high ⊖ c.close) ⊘ body c)
      && not (is_zero (range c))
      && le ((c.close ⊖ c.low) ⊘ range c) (greatest_close params)

  -- How far the lows keep falling from a candle back.
  unfoldable pub descend : Candle D → List (Candle D) → ℕ
  descend lowest [] = 0
  descend lowest (c ∷ older) =
      let rest = descend c older in if le c.low lowest.low then rest + 1 else 0

  -- The candles from the start of the pullback up to the one before the signal bar.
  unfoldable pub pullback_before : List (Candle D) → List (Candle D)
  pullback_before [] = []
  pullback_before (c ∷ older) = take (descend c older + 1) (c ∷ older)

  unfoldable pub is_highest_high : Candle D → List (Candle D) → Bool
  is_highest_high bar [] = true
  is_highest_high bar (c ∷ cs) = le c.high bar.high && is_highest_high bar cs

  unfoldable pub priced_short : Candle D → List (Candle D) → Low2Parameters D → Low2Setup D
  priced_short bar older params =
      let entry = bar.low ⊖ params.entry_offset_ticks ⊗ params.tick_size in
      let stop = bar.high ⊕ params.stop_offset_ticks ⊗ params.tick_size in
      record {
        signal_index = length older;
        pullback_start_index = length older - length (pullback_before older);
        entry_price = entry;
        stop_price = stop;
        target_price = entry ⊖ params.reward_multiple ⊗ (stop ⊖ entry);
      }

  -- One round of the loop: a setup, or the next candle back.
  unfoldable pub setup_at : Candle D → List (Candle D) → Low2Parameters D → Option (Low2Setup D)
  setup_at bar older params =
      let s = priced_short bar older params in
      if not (is_bearish_signal_bar bar params)
        || leb (length (pullback_before older)) 0
        || is_highest_high bar (bar ∷ pullback_before older)
        || le (s.stop_price ⊖ s.entry_price) d.nought
      then none
      else some s

  unfoldable pub search_back : ℕ → List (Candle D) → Low2Parameters D → Check (Low2Setup D)
  search_back zero candles params = reject RejectionReason.incomplete_setup
  search_back (suc n) [] params = reject RejectionReason.incomplete_setup
  search_back (suc n) (bar ∷ older) params =
      let rest = search_back n older params in
      elim (setup_at bar older params) [ none ↦ rest | some s ↦ go_on s ]

  -- `detect_setup`
  unfoldable pub detect_low_2 : List (Candle D) → Low2Parameters D → Check (Low2Setup D)
  detect_low_2 candles params =
      if ltb (length candles) 3
      then reject RejectionReason.incomplete_setup
      else search_back (max_lookback params.max_pullback_candles (length candles)) (reverse candles)
          params

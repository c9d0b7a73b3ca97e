-- ===== src/Strategies/FailureTest/Support.antt =====
-- The level of support: `find_support_level` of setup.rs. A read by index is of a candle of the series.
use daytradebot.Base.{
  ℕ, zero, suc, ◌+◌, ◌-◌, Bool, false, not, ◌&&◌, ◌||◌, List, [], ◌∷◌, length, map, foldl, leb, ltb,
  if◌then◌else◌,
}
use daytradebot.Decimal.{Decimal, ◌⊖◌, ◌⊗◌, le, lt}
use daytradebot.Domain.Market.{Candle}
use daytradebot.Domain.Signals.{RejectionReason}
use daytradebot.Risk.{Check, go_on, reject, reject_if, ◌>>◌}
use daytradebot.Strategies.Checks.{slice}
use daytradebot.Strategies.Trendline.Trend.{low_at}
use daytradebot.Strategies.FailureTest.Params.{FailureParameters}

pub record SupportLevel (D : Type 0) : Type 0 where
  pub price : D
  pub touches : ℕ
  pub first_touch_index : ℕ

-- `filter`
unfoldable pub keep : {A : Type 0} → (A → Bool) → List A → List A
keep p [] = []
keep p (x ∷ xs) = let rest = keep p xs in if p x then x ∷ rest else rest

module _ {D : Type 0} ⦃d : Decimal D⦄ where
  -- No low around it is lower, and on each side one is higher.
  abbrev pub is_swing_low : List (Candle D) → ℕ → Bool
  is_swing_low candles i =
      let low = low_at candles i in
      leb 2 i
      && ltb (i + 2) (length candles)
      && le low (low_at candles (i - 1))
      && le low (low_at candles (i - 2))
      && (lt low (low_at candles (i - 1)) || lt low (low_at candles (i - 2)))
      && le low (low_at candles (i + 1))
      && le low (low_at candles (i + 2))
      && (lt low (low_at candles (i + 1)) || lt low (low_at candles (i + 2)))

  -- The lows of the pivots from an index on, over so many.
  unfoldable pub pivot_lows : List (Candle D) → ℕ → ℕ → List D
  pivot_lows candles i zero = []
  pivot_lows candles i (suc n) =
      let rest = pivot_lows candles (i + 1) n in
      if is_swing_low candles i then low_at candles i ∷ rest else rest

  abbrev pub touch_tolerance : D → FailureParameters D → D
  touch_tolerance price params = price ⊗ params.level_touch_tolerance_pct

  abbrev pub touches_level : D → FailureParameters D → Candle D → Bool
  touches_level price params c = le (d.abs (c.low ⊖ price)) (touch_tolerance price params)

  -- The index of the first touch, or the end where there is none.
  unfoldable pub first_touch : D → FailureParameters D → ℕ → ℕ → List (Candle D) → ℕ
  first_touch price params last i [] = last
  first_touch price params last i (c ∷ cs) =
      let later = first_touch price params last (i + 1) cs in
      if touches_level price params c then i else later

  abbrev pub build_level : List (Candle D) → ℕ → ℕ → FailureParameters D → D → SupportLevel D
  build_level candles start last params price = record {
    price = price;
    touches = length (keep (touches_level price params) (slice start last candles));
    first_touch_index = first_touch price params last start (slice start last candles);
  }

  unfoldable pub any_close_under : D → List (Candle D) → Bool
  any_close_under price [] = false
  any_close_under price (c ∷ cs) = lt c.close price || any_close_under price cs

  abbrev pub level_broken : List (Candle D) → ℕ → ℕ → FailureParameters D → D → Bool
  level_broken candles start last params price =
      any_close_under (price ⊖ touch_tolerance price params) (slice start last candles)

  -- The end of the window, before the zone of the probe, and its start.
  abbrev pub zone_end : List (Candle D) → FailureParameters D → ℕ
  zone_end candles params = length candles - (params.probe_max_bars + 1)

  abbrev pub zone_start : List (Candle D) → FailureParameters D → ℕ
  zone_start candles params = zone_end candles params - params.level_lookback_candles

  abbrev pub level_at : List (Candle D) → FailureParameters D → D → SupportLevel D
  level_at candles params =
      build_level candles (zone_start candles params) (zone_end candles params) params

  abbrev pub candidates : List (Candle D) → FailureParameters D → List (SupportLevel D)
  candidates candles params = map (level_at candles params) (
      pivot_lows candles (zone_start candles params + 2)
        (zone_end candles params - (zone_start candles params + 2)))

  abbrev pub is_tested : FailureParameters D → SupportLevel D → Bool
  is_tested params l = leb params.level_min_touches l.touches

  abbrev pub is_intact : List (Candle D) → FailureParameters D → SupportLevel D → Bool
  is_intact candles params l =
      not
        (level_broken candles (zone_start candles params) (zone_end candles params) params l.price)

  abbrev pub is_aged : List (Candle D) → FailureParameters D → SupportLevel D → Bool
  is_aged candles params l =
      leb params.level_min_age_candles (length candles - 1 - l.first_touch_index)

  -- `max_by`: the more touches, then the higher price, the later of equal ones.
  abbrev pub better_of : SupportLevel D → SupportLevel D → SupportLevel D
  better_of a b =
      if ltb b.touches a.touches
      then a
      else if ltb a.touches b.touches
      then b
      else if le a.price b.price
      then b
      else a

  abbrev pub best_of : List (SupportLevel D) → RejectionReason → Check (SupportLevel D)
  best_of [] reason = reject reason
  best_of (l ∷ ls) reason = go_on (foldl better_of l ls)

  abbrev pub some_left : List (SupportLevel D) → RejectionReason → Check (Unit {0})
  some_left ls reason = reject_if (leb (length ls) 0) reason

  -- The first filter that leaves no candidate gives the reason.
  unfoldable pub find_support_level : List (Candle D) → FailureParameters D → Check (SupportLevel D)
  find_support_level candles params =
      let found = candidates candles params in
      let much_tested = keep (is_tested params) found in
      let intact = keep (is_intact candles params) much_tested in
      do
        some_left found RejectionReason.support_level_not_found
        some_left much_tested RejectionReason.support_not_tested_enough
        some_left intact RejectionReason.support_already_broken
        best_of (keep (is_aged candles params) intact) RejectionReason.level_too_recent

-- ===== src/Strategies/FirstPullback/Found.antt =====
-- What the search finds: the latest breakout in the window, and what its detection and the detection
-- of the pullback establish.
use daytradebot.Base.{
  ℕ, zero, suc, ◌+◌, ◌-◌, ◌≤◌, ◌<◌, ◌≡◌, Option, some, List, length, arith, leb, ltb, get_elem?,
  get_last?, ◌||◌, refl, subst, false, inl, inr,
}
use daytradebot.Decimal.{Decimal, ◌⊕◌, ◌⊗◌, le, lt, ◌≼◌, ◌≺◌}
use daytradebot.Domain.Market.{Candle}
use daytradebot.Domain.Signals.{RejectionReason}
use daytradebot.Risk.{go_on, reject}
use daytradebot.Strategies.Checks.{
  ℕ-split, needed, bind-go_on, Check-cases, reject_if-go_on, or-false, ltb-false, lt-false,
  go_on-inj, needed-go_on, lowest,
}
use daytradebot.Strategies.FirstPullback.Params.{FirstPullbackParameters}
use daytradebot.Strategies.FirstPullback.Level.{
  Breakout, detect_breakout, level_of, is_second_attempt, measured,
}
use daytradebot.Strategies.FirstPullback.Pullback.{
  PullbackSetup, detect_first_pullback, closes_under, after, pulled_back,
}
use daytradebot.Strategies.FirstPullback.Analysis.{candidate, noted, found, search}

module _ {D : Type 0} ⦃d : Decimal D⦄ where
  -- The breakout of a length of the pullback, where each shorter length down to another one has none.
  abbrev pub IsShortest : ℕ → List (Candle D) → D → FirstPullbackParameters D → Breakout D → Type 0
  IsShortest least candles atr_value params b =
      (len : ℕ) × ((least ≤ len)
        × (candidate candles len atr_value params ≡ go_on b)
        × ((k : ℕ)
            → least ≤ k
            → k < len
            → (r : RejectionReason) × (candidate candles k atr_value params ≡ reject r)))

  pub search-IsShortest :
      (n least : ℕ) (candles : List (Candle D)) (atr_value : D) (params : FirstPullbackParameters D)
      (first : Option RejectionReason) (b : Breakout D)
      → search n least candles atr_value params first ≡ found b
      → IsShortest least candles atr_value params b
  unfolding search
  search-IsShortest zero least candles atr_value params first b h = cc
  search-IsShortest (suc n) least candles atr_value params first b h =
      elim (Check-cases (candidate candles least atr_value params)) [
        | inl (a, e) ↦
            let same : found a ≡ found b = rw (e, search) at h in
            (least, (omega arith, cc, λ k below above. ground arith))
        | inr (r, e) ↦
            let later : search n (least + 1) candles atr_value params (noted first r) ≡ found b =
              rw (e, search) at h in
            let (len, (le1, found_at, none_before)) =
              search-IsShortest n (least + 1) candles atr_value params (noted first r) b later in
            (
              len,
              (
                omega arith,
                found_at,
                λ k below above. elim (ℕ-split least k below) [
                  | inl same ↦
                      (r, subst (λ x. candidate candles x atr_value params ≡ reject r) same e)
                  | inr later ↦ none_before k later above
                ],
              ),
            )
      ]

  -- The bar of the breakout closed over a level that was touched often enough, for the first time
  -- and with a range and a volume that stand out.
  abbrev pub IsBreakout : List (Candle D) → D → FirstPullbackParameters D → Breakout D → Type 0
  IsBreakout candles atr_value params b =
      (bar : Candle D) × ((get_elem? candles b.index ≡ some bar)
        × (b.level ≡ level_of candles b.index params)
        × (b.level.price ⊕ params.breakout_close_atr_mult ⊗ atr_value ≺ bar.close)
        × (is_second_attempt candles b.index params ≡ false)
        × (params.level_min_touches ≤ b.level.touches)
        × (params.breakout_range_mult ≼ b.range_ratio)
        × (params.breakout_volume_mult ≼ b.volume_ratio))

  measured-IsBreakout :
      (candles : List (Candle D)) (index : ℕ) (bar : Candle D) (atr_value : D)
      (params : FirstPullbackParameters D) (b : Breakout D)
      → get_elem? candles index ≡ some bar
      → le bar.close
          ((level_of candles index params).price ⊕ params.breakout_close_atr_mult ⊗ atr_value)
        ≡ false
      → is_second_attempt candles index params ≡ false
      → ltb (level_of candles index params).touches params.level_min_touches ≡ false
      → (lt (measured candles index bar params).range_ratio params.breakout_range_mult
          || lt (measured candles index bar params).volume_ratio params.breakout_volume_mult)
        ≡ false
      → go_on (measured candles index bar params) ≡ go_on b
      → IsBreakout candles atr_value params b
  measured-IsBreakout candles index bar atr_value params b at over first often stands h =
      let m = measured candles index bar params in
      let (wide, heavy) =
        or-false (lt m.range_ratio params.breakout_range_mult)
          (lt m.volume_ratio params.breakout_volume_mult) stands in
      subst (IsBreakout candles atr_value params) (go_on-inj m b h) (
        bar,
        (
          at,
          refl,
          ground arith,
          first,
          ltb-false (level_of candles index params).touches params.level_min_touches often,
          lt-false m.range_ratio params.breakout_range_mult wide,
          lt-false m.volume_ratio params.breakout_volume_mult heavy,
        ),
      )

  pub detect_breakout-IsBreakout :
      (candles : List (Candle D)) (index : ℕ) (atr_value : D) (params : FirstPullbackParameters D)
      (b : Breakout D)
      → detect_breakout candles index atr_value params ≡ go_on b
      → IsBreakout candles atr_value params b
  unfolding detect_breakout
  detect_breakout-IsBreakout candles index atr_value params b h =
      let level = level_of candles index params in
      let (e0, h0) =
        reject_if-go_on (ltb index params.level_lookback_candles || leb (length candles) index)
          RejectionReason.incomplete_setup _ b h in
      let (bar, (e1, h1)) = bind-go_on (needed (get_elem? candles index)) _ b h0 in
      let m = measured candles index bar params in
      let (e2, h2) =
        reject_if-go_on (le bar.close (level.price ⊕ params.breakout_close_atr_mult ⊗ atr_value))
          RejectionReason.incomplete_setup _ b h1 in
      let (e3, h3) =
        reject_if-go_on (is_second_attempt candles index params)
          RejectionReason.breakout_already_taken _ b h2 in
      let (e4, h4) =
        reject_if-go_on (ltb level.touches params.level_min_touches)
          RejectionReason.resistance_level_not_found _ b h3 in
      let (e5, h5) =
        reject_if-go_on
          (lt m.range_ratio params.breakout_range_mult
            || lt m.volume_ratio params.breakout_volume_mult)
          RejectionReason.weak_breakout (go_on m) b h4 in
      measured-IsBreakout candles index bar atr_value params b
        (needed-go_on (get_elem? candles index) bar e1) e2 e3 e4 e5 h5

  -- The pullback is no longer than its greatest length, has not given up more of the impulse than its
  -- share, has no close under the pivot, and ends with a close over the one before.
  abbrev pub HasPulledBack :
      List (Candle D) → FirstPullbackParameters D → Breakout D → PullbackSetup D → Type 0
  HasPulledBack candles params b setup =
      (bar_b : Candle D) × ((get_elem? candles b.index ≡ some bar_b)
        × (get_last? candles ≡ some setup.bar)
        × (setup ≡ pulled_back candles b bar_b setup.bar params)
        × (length candles - 1 - b.index ≤ params.pullback_max_candles)
        × (d.nought ≺ setup.impulse)
        × (setup.retrace ≼ params.max_retrace_pct ⊗ setup.impulse)
        × (closes_under setup.pivot (after b.index candles) ≡ false))

  pub detect_first_pullback-HasPulledBack :
      (candles : List (Candle D)) (b : Breakout D) (params : FirstPullbackParameters D)
      (setup : PullbackSetup D)
      → detect_first_pullback candles b params ≡ go_on setup
      → HasPulledBack candles params b setup
  unfolding detect_first_pullback
  detect_first_pullback-HasPulledBack candles b params setup h =
      let last = length candles - 1 in
      let (e0, h0) =
        reject_if-go_on (ltb (last - b.index) params.pullback_min_candles)
          RejectionReason.incomplete_setup _ setup h in
      let (e1, h1) =
        reject_if-go_on (ltb params.pullback_max_candles (last - b.index))
          RejectionReason.pullback_too_long _ setup h0 in
      let (bar_b, (e2, h2)) = bind-go_on (needed (get_elem? candles b.index)) _ setup h1 in
      let (bar, (e3, h3)) = bind-go_on (needed (get_last? candles)) _ setup h2 in
      let s = pulled_back candles b bar_b bar params in
      let (e4, h4) =
        reject_if-go_on (le s.impulse d.nought) RejectionReason.incomplete_setup _ setup h3 in
      let (e5, h5) =
        reject_if-go_on (le s.impulse_high (lowest (after b.index candles)))
          RejectionReason.incomplete_setup _ setup h4 in
      let (e6, h6) =
        reject_if-go_on (lt (params.max_retrace_pct ⊗ s.impulse) s.retrace)
          RejectionReason.pullback_too_deep _ setup h5 in
      let (e7, h7) =
        reject_if-go_on (closes_under s.pivot (after b.index candles))
          RejectionReason.breakout_failed _ setup h6 in
      let (previous, (e8, h8)) = bind-go_on (needed (get_elem? candles (last - 1))) _ setup h7 in
      let (e9, h9) =
        reject_if-go_on (le bar.close previous.close) RejectionReason.incomplete_setup (go_on s)
          setup h8 in
      subst (HasPulledBack candles params b) (go_on-inj s setup h9) (
        bar_b,
        (
          needed-go_on (get_elem? candles b.index) bar_b e2,
          needed-go_on (get_last? candles) bar e3,
          refl,
          ltb-false params.pullback_max_candles (last - b.index) e1,
          ground arith,
          lt-false (params.max_retrace_pct ⊗ s.impulse) s.retrace e6,
          e7,
        ),
      )

-- ===== src/Strategies/Trendline/Found.antt =====
-- What the search for the break and the detection of the trend and of the test establish.
use daytradebot.Base.{
  Bool-cases, ℕ, zero, suc, ◌+◌, ◌-◌, ◌*◌, ◌≤◌, ◌<◌, ◌≡◌, ap, ◌∙◌, refl, subst, true, false, not,
  ◌&&◌, Option, none, some, List, length, arith, leb, ltb, ◌⊎◌, inl, inr, Option-cases, get_last?,
}
use daytradebot.Decimal.{Decimal, ◌⊗◌, lt, is_zero}
use daytradebot.Domain.Market.{Candle, range}
use daytradebot.Domain.Signals.{RejectionReason}
use daytradebot.Risk.{go_on}
use daytradebot.Strategies.Checks.{
  ℕ-split, not-false, needed, bind-go_on, reject_if-go_on, go_on-inj, ltb-false, needed-go_on,
}
use daytradebot.Strategies.Trendline.Params.{TrendlineParameters}
use daytradebot.Strategies.Trendline.Trend.{
  bear, bull, TrendContext, close_at, qualify_trend, later_of, detect_trend, window_start,
  last_candidate, lowest_index, highest_index,
}
use daytradebot.Strategies.Trendline.Break.{
  TrendlineBreak, trendline_value_at, is_beyond, breaks_at, closes_beyond, leg_peak, first_break,
  has_momentum, break_at, find_trendline_break,
}
use daytradebot.Strategies.Trendline.Setup.{
  TestSetup, reversal_of, tolerance, is_reversal_bar, test_of, detect_test,
}

module _ {D : Type 0} ⦃d : Decimal D⦄ where
  -- The first of the candles from one on, so many, that closes beyond the line, which has that value.
  abbrev pub IsFirst : List (Candle D) → TrendContext D → ℕ → ℕ → ℕ → D → Type 0
  IsFirst candles trend i n index line =
      (i ≤ index)
      × (index < i + n)
      × (trendline_value_at candles trend index ≡ some line)
      × (is_beyond trend.kind (close_at candles index) line ≡ true)
      × ((k : ℕ) → i ≤ k → k < index → breaks_at candles trend k ≡ false)

  broken_at_once :
      (candles : List (Candle D)) (trend : TrendContext D) (i n : ℕ) (line : D)
      → trendline_value_at candles trend i ≡ some line
      → is_beyond trend.kind (close_at candles i) line ≡ true
      → IsFirst candles trend i (suc n) i line
  broken_at_once candles trend i n line known beyond =
      (omega arith, omega arith, known, beyond, λ k above below. ground arith)

  broken_after :
      (candles : List (Candle D)) (trend : TrendContext D) (i n index : ℕ) (line : D)
      → breaks_at candles trend i ≡ false
      → IsFirst candles trend (i + 1) n index line
      → IsFirst candles trend i (suc n) index line
  broken_after candles trend i n index line unbroken (above, below, known, beyond, first) = (
    omega arith,
    omega arith,
    known,
    beyond,
    λ k i_k k_index. elim (ℕ-split i k i_k) [
      | inl same ↦ subst (λ x. breaks_at candles trend x ≡ false) same unbroken
      | inr later ↦ first k later k_index
    ],
  )

  first_break-IsFirst :
      (candles : List (Candle D)) (trend : TrendContext D) (i n index : ℕ) (line : D)
      → first_break candles trend i n ≡ go_on (index, line)
      → IsFirst candles trend i n index line
  unfolding first_break
  first_break-IsFirst candles trend i zero index line h = cc
  first_break-IsFirst candles trend i (suc n) index line h =
      elim (Option-cases (trendline_value_at candles trend i)) [
        | inl e ↦
            broken_after candles trend i n index line
              (ap (closes_beyond trend.kind (close_at candles i)) e)
              (first_break-IsFirst candles trend (i + 1) n index line (rw (e, first_break) at h))
        | inr (l, e) ↦ elim (Bool-cases (is_beyond trend.kind (close_at candles i) l)) [
          | inl t ↦
              let same : go_on (i, l) ≡ go_on (index, line) = rw (e, t, first_break) at h in
              subst (λ x. IsFirst candles trend i (suc n) x.0 x.1)
                (go_on-inj (i, l) (index, line) same) (broken_at_once candles trend i n l e t)
          | inr f ↦
              broken_after candles trend i n index line
                (ap (closes_beyond trend.kind (close_at candles i)) e ∙ f)
                (first_break-IsFirst candles trend (i + 1) n index line
                  (rw (e, f, first_break) at h))
        ]
      ]

  -- The break is the first close of the leg beyond the line, not too old, and its leg has momentum.
  abbrev pub IsBreak :
      List (Candle D) → TrendlineParameters D → TrendContext D → TrendlineBreak D → Type 0
  IsBreak candles params trend brk =
      IsFirst candles trend (trend.extreme_index + 1) (leg_peak candles trend - trend.extreme_index)
        brk.index brk.line_value
      × (length candles - 1 - brk.index ≤ params.break_max_age)
      × (has_momentum candles trend params ≡ true)

  pub find_trendline_break-IsBreak :
      (candles : List (Candle D)) (params : TrendlineParameters D) (trend : TrendContext D)
      (brk : TrendlineBreak D)
      → find_trendline_break candles trend params ≡ go_on brk
      → IsBreak candles params trend brk
  unfolding find_trendline_break
  find_trendline_break-IsBreak candles params trend brk h =
      let start = trend.extreme_index + 1 in
      let count = leg_peak candles trend - trend.extreme_index in
      let (e0, h0) =
        reject_if-go_on (leb (length candles) start) RejectionReason.no_trendline_break _ brk h in
      let ((index, line), (e1, h1)) = bind-go_on (first_break candles trend start count) _ brk h0 in
      let (e2, h2) =
        reject_if-go_on (ltb params.break_max_age (length candles - 1 - index))
          RejectionReason.break_too_old _ brk h1 in
      let made = break_at candles trend (index, line) in
      let (e3, h3) =
        reject_if-go_on (not (has_momentum candles trend params))
          RejectionReason.break_without_momentum (go_on made) brk h2 in
      subst (IsBreak candles params trend) (go_on-inj made brk h3) (
        first_break-IsFirst candles trend start count index line e1,
        ltb-false params.break_max_age (length candles - 1 - index) e2,
        not-false (has_momentum candles trend params) e3,
      )

  -- A fall to the lowest low of the window, or a rise to its highest high.
  abbrev pub IsTrend : List (Candle D) → TrendlineParameters D → TrendContext D → Type 0
  IsTrend candles params trend =
      (qualify_trend candles params (lowest_index candles params) bear ≡ some trend)
      ⊎ (qualify_trend candles params (highest_index candles params) bull ≡ some trend)

  later_of-either :
      (a b : Option (TrendContext D)) (t : TrendContext D)
      → later_of a b ≡ go_on t
      → (a ≡ some t) ⊎ (b ≡ some t)
  later_of-either none none t h = cc
  later_of-either none (some b) t h = inr (ap some (go_on-inj b t h))
  later_of-either (some a) none t h = inl (ap some (go_on-inj a t h))
  later_of-either (some a) (some b) t h = elim (Bool-cases (leb b.extreme_index a.extreme_index)) [
    | inl e ↦ inl (ap some (go_on-inj a t (rw e at h)))
    | inr e ↦ inr (ap some (go_on-inj b t (rw e at h)))
  ]

  pub detect_trend-IsTrend :
      (candles : List (Candle D)) (params : TrendlineParameters D) (trend : TrendContext D)
      → detect_trend candles params ≡ go_on trend
      → IsTrend candles params trend
  unfolding detect_trend
  detect_trend-IsTrend candles params trend h =
      let bears = qualify_trend candles params (lowest_index candles params) bear in
      let bulls = qualify_trend candles params (highest_index candles params) bull in
      let (e0, h0) =
        reject_if-go_on
          (ltb (length candles) (window_start candles params + 2 * params.pivot_bars + 3))
          RejectionReason.no_trend_to_reverse _ trend h in
      let (e1, h1) =
        reject_if-go_on (leb (last_candidate candles params) (window_start candles params))
          RejectionReason.no_trend_to_reverse (later_of bears bulls) trend h0 in
      later_of-either bears bulls trend h1

  -- The last bar, later than the break, comes near the old extreme or goes beyond it by so much at
  -- most, and turns against the trend.
  abbrev pub IsTest :
      List (Candle D)
      → TrendlineParameters D
      → D
      → TrendContext D
      → TrendlineBreak D
      → TestSetup D
      → Type 0
  IsTest candles params atr_value trend brk setup =
      (get_last? candles ≡ some setup.bar)
      × (setup ≡ test_of trend setup.bar)
      × (brk.index < length candles - 1)
      × ((setup.is_overshoot && lt (params.max_overshoot_atr ⊗ atr_value) (d.abs setup.test_offset))
          ≡ false)
      × ((not setup.is_overshoot && lt (tolerance trend params) setup.test_offset) ≡ false)
      × (is_reversal_bar (reversal_of trend.kind) setup.bar params ≡ true)

  pub detect_test-IsTest :
      (candles : List (Candle D)) (params : TrendlineParameters D) (atr_value : D)
      (trend : TrendContext D) (brk : TrendlineBreak D) (setup : TestSetup D)
      → detect_test candles trend brk atr_value params ≡ go_on setup
      → IsTest candles params atr_value trend brk setup
  unfolding detect_test
  detect_test-IsTest candles params atr_value trend brk setup h =
      let (e0, h0) =
        reject_if-go_on (leb (length candles - 1) brk.index) RejectionReason.no_extreme_test _ setup
          h in
      let (bar, (e1, h1)) = bind-go_on (needed (get_last? candles)) _ setup h0 in
      let t = test_of trend bar in
      let (e2, h2) =
        reject_if-go_on
          (t.is_overshoot && lt (params.max_overshoot_atr ⊗ atr_value) (d.abs t.test_offset))
          RejectionReason.reversal_nullified _ setup h1 in
      let (e3, h3) =
        reject_if-go_on (not t.is_overshoot && lt (tolerance trend params) t.test_offset)
          RejectionReason.no_extreme_test _ setup h2 in
      let (e4, h4) =
        reject_if-go_on (is_zero (range bar)) RejectionReason.weak_confirmation _ setup h3 in
      let (e5, h5) =
        reject_if-go_on (not (is_reversal_bar (reversal_of trend.kind) bar params))
          RejectionReason.weak_confirmation (go_on t) setup h4 in
      subst (IsTest candles params atr_value trend brk) (go_on-inj t setup h5) (
        needed-go_on (get_last? candles) bar e1,
        refl,
        ground arith,
        e2,
        e3,
        not-false (is_reversal_bar (reversal_of trend.kind) bar params) e5,
      )

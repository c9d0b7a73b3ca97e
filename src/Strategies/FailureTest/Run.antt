-- ===== src/Strategies/FailureTest/Run.antt =====
-- The run of lows under the level, found from its last candle back.
use daytradebot.Base.{
  Bool-cases, ℕ, zero, suc, ◌-◌, ◌≤◌, ◌≡◌, refl, sym, subst, ◌⊎◌, inl, inr, List, arith,
}
use daytradebot.Decimal.{Decimal, le, lt, ◌≼◌, ◌≺◌}
use daytradebot.Domain.Market.{Candle}
use daytradebot.Risk.{go_on}
use daytradebot.Strategies.Checks.{ℕ-split, go_on-inj, lt-false}
use daytradebot.Strategies.Trendline.Trend.{low_at}
use daytradebot.Strategies.FailureTest.Probe.{run_back, probe_run_start, started}

module _ {D : Type 0} ⦃d : Decimal D⦄ where
  -- From one candle up to another every low is under the level, and the low before is not.
  abbrev pub IsRun : List (Candle D) → D → ℕ → ℕ → Type 0
  IsRun candles s start last =
      (start ≤ last)
      × ((k : ℕ) → start ≤ k → k ≤ last → low_at candles k ≺ s)
      × ((start ≡ 0) ⊎ (s ≼ low_at candles (start - 1)))

  longer-IsRun :
      (candles : List (Candle D)) (s : D) (start n : ℕ)
      → IsRun candles s start n
      → low_at candles (suc n) ≺ s
      → IsRun candles s start (suc n)
  longer-IsRun candles s start n (in_order, under, before) low = (
    omega arith,
    λ k above below. elim (ℕ-split k (suc n) below) [
      | inl same ↦ subst (λ x. low_at candles x ≺ s) (sym same) low
      | inr earlier ↦ under k above (omega arith)
    ],
    before,
  )

  alone-IsRun :
      (candles : List (Candle D)) (s : D) (n : ℕ)
      → low_at candles n ≺ s
      → ((n ≡ 0) ⊎ (s ≼ low_at candles (n - 1)))
      → IsRun candles s n n
  alone-IsRun candles s n low before = (
    omega arith,
    λ k above below. let same : n ≡ k = omega arith in subst (λ x. low_at candles x ≺ s) same low,
    before,
  )

  run_back-IsRun :
      (candles : List (Candle D)) (s : D) (n : ℕ)
      → low_at candles n ≺ s
      → IsRun candles s (run_back candles s n) n
  unfolding run_back
  run_back-IsRun candles s zero low = alone-IsRun candles s zero low (inl refl)
  run_back-IsRun candles s (suc n) low = elim (Bool-cases (lt (low_at candles n) s)) [
    | inl e ↦
        let earlier : low_at candles n ≺ s = ground arith in
        rw e
          (longer-IsRun candles s (run_back candles s n) n (run_back-IsRun candles s n earlier) low)
    | inr e ↦
        let back : n ≡ suc n - 1 = omega arith in
        rw e (
          alone-IsRun candles s (suc n) low
            (inr (subst (λ x. s ≼ low_at candles x) back (lt-false (low_at candles n) s e))))
  ]

  pub started-IsRun :
      (candles : List (Candle D)) (s : D) (last start : ℕ)
      → started (probe_run_start candles last s) ≡ go_on start
      → IsRun candles s start last
  unfolding probe_run_start
  started-IsRun candles s last start h = elim (Bool-cases (le s (low_at candles last))) [
    | inl e ↦ cc (rw (e, probe_run_start) at h)
    | inr e ↦
        subst (λ x. IsRun candles s x last)
          (go_on-inj (run_back candles s last) start (rw (e, probe_run_start) at h))
          (run_back-IsRun candles s last e)
  ]

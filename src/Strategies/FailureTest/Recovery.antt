-- ===== src/Strategies/FailureTest/Recovery.antt =====
-- What holds of a probe that is found: its run of lows, and the recovery from it.
use daytradebot.Base.{
  Bool-cases, ℕ, ◌+◌, ◌-◌, ◌≤◌, ◌≡◌, refl, subst, true, false, inl, inr, some, List, length,
  get_elem?, get_last?, Option-cases, arith, ltb, ◌==◌, ◌&&◌,
}
use daytradebot.Decimal.{Decimal, ◌⊖◌, ◌⊗◌, ◌⊘◌, lt, is_zero, ◌≼◌, ◌≺◌}
use daytradebot.Domain.Market.{Candle, range}
use daytradebot.Domain.Signals.{RejectionReason}
use daytradebot.Risk.{go_on}
use daytradebot.Strategies.Checks.{
  needed, needed-go_on, bind-go_on, reject_if-go_on, go_on-inj, lt-false, ltb-false,
}
use daytradebot.Strategies.Trendline.Trend.{close_at}
use daytradebot.Strategies.FailureTest.Params.{FailureParameters}
use daytradebot.Strategies.FailureTest.Support.{SupportLevel}
use daytradebot.Strategies.FailureTest.Run.{IsRun, started-IsRun}
use daytradebot.Strategies.FailureTest.Probe.{
  Probe, probe_run_start, started, probe_of, validate_probe, run_end_of, recovered, not_recovered,
  detect_probe,
}

module _ {D : Type 0} ⦃d : Decimal D⦄ where
  -- A bar with a range that closes high enough in it.
  abbrev pub IsStrong : List (Candle D) → FailureParameters D → ℕ → Type 0
  IsStrong candles params i =
      (bar : Candle D) × ((get_elem? candles i ≡ some bar)
        × (is_zero (range bar) ≡ false)
        × (params.signal_close_min_position ≼ (bar.close ⊖ bar.low) ⊘ range bar))

  -- The probe: a run under the level that ends with the last candle or the one before it, which then
  -- closed no higher than the level; not too long and not too deep; and a last close over the level,
  -- high enough in its bar.
  abbrev pub IsProbe : List (Candle D) → FailureParameters D → D → D → Probe D → Type 0
  IsProbe candles params s atr_value p =
      (last : Candle D) × ((get_last? candles ≡ some last)
        × (s ≺ last.close)
        × IsRun candles s p.start_index (run_end_of s last (length candles - 1))
        × (run_end_of s last (length candles - 1) - p.start_index + 1 ≤ params.probe_max_bars)
        × ((run_end_of s last (length candles - 1) == length candles - 1 - 1
              && lt s (close_at candles (length candles - 1 - 1)))
            ≡ false)
        × (p ≡ probe_of candles s p.start_index (length candles - 1))
        × (p.depth ≼ params.probe_max_atr_mult ⊗ atr_value)
        × IsStrong candles params p.recovery_index)

  validate_probe-bounds :
      (candles : List (Candle D)) (s atr_value : D) (params : FailureParameters D)
      (start recovery_index : ℕ) (p : Probe D)
      → validate_probe candles s atr_value params start recovery_index ≡ go_on p
      → (probe_of candles s start recovery_index ≡ p)
        × ((probe_of candles s start recovery_index).depth ≼ params.probe_max_atr_mult ⊗ atr_value)
        × IsStrong candles params recovery_index
  unfolding validate_probe
  validate_probe-bounds candles s atr_value params start recovery_index p h =
      let made = probe_of candles s start recovery_index in
      let (e0, h0) =
        reject_if-go_on (lt (params.probe_max_atr_mult ⊗ atr_value) made.depth)
          RejectionReason.probe_too_deep _ p h in
      let (recovery, (e1, h1)) = bind-go_on (needed (get_elem? candles recovery_index)) _ p h0 in
      let (e2, h2) =
        reject_if-go_on (is_zero (range recovery)) RejectionReason.weak_recovery_bar _ p h1 in
      let (e3, h3) =
        reject_if-go_on
          (lt ((recovery.close ⊖ recovery.low) ⊘ range recovery) params.signal_close_min_position)
          RejectionReason.weak_recovery_bar (go_on made) p h2 in
      (
        go_on-inj made p h3,
        lt-false (params.probe_max_atr_mult ⊗ atr_value) made.depth e0,
        (
          recovery,
          (
            needed-go_on (get_elem? candles recovery_index) recovery e1,
            e2,
            lt-false ((recovery.close ⊖ recovery.low) ⊘ range recovery)
                params.signal_close_min_position e3,
          ),
        ),
      )

  not_recovered-go_on :
      (candles : List (Candle D)) (s : D) (params : FailureParameters D) (j : ℕ) (p : Probe D)
      → not_recovered candles s params j ≡ go_on p
      → false ≡ true
  unfolding not_recovered
  not_recovered-go_on candles s params j p h =
      let (start, (e0, h0)) = bind-go_on (started (probe_run_start candles j s)) _ p h in
      let (e1, h1) =
        reject_if-go_on (ltb params.probe_max_bars (j - start + 1)) RejectionReason.probe_too_long _
          p h0 in
      cc

  recovered-IsProbe :
      (candles : List (Candle D)) (s atr_value : D) (params : FailureParameters D) (last : Candle D)
      (p : Probe D)
      → get_last? candles ≡ some last
      → s ≺ last.close
      → recovered candles s atr_value params last (length candles - 1) ≡ go_on p
      → IsProbe candles params s atr_value p
  unfolding recovered
  recovered-IsProbe candles s atr_value params last p at over h =
      let j = length candles - 1 in
      let run_end = run_end_of s last j in
      let (start, (e0, h0)) = bind-go_on (started (probe_run_start candles run_end s)) _ p h in
      let (e1, h1) =
        reject_if-go_on (run_end == j - 1 && lt s (close_at candles (j - 1)))
          RejectionReason.no_probe _ p h0 in
      let (e2, h2) =
        reject_if-go_on (ltb params.probe_max_bars (run_end - start + 1))
          RejectionReason.probe_too_long (validate_probe candles s atr_value params start j) p h1 in
      let (same, deep, strong) = validate_probe-bounds candles s atr_value params start j p h2 in
      subst (IsProbe candles params s atr_value) same (
        last,
        (
          at,
          over,
          started-IsRun candles s run_end start e0,
          ltb-false params.probe_max_bars (run_end - start + 1) e2,
          e1,
          refl,
          deep,
          strong,
        ),
      )

  pub detect_probe-IsProbe :
      (candles : List (Candle D)) (level : SupportLevel D) (atr_value : D)
      (params : FailureParameters D) (p : Probe D)
      → detect_probe candles level atr_value params ≡ go_on p
      → IsProbe candles params level.price atr_value p
  unfolding detect_probe
  detect_probe-IsProbe candles level atr_value params p h =
      elim (Option-cases (get_last? candles)) [
        | inl e ↦ cc (rw (e, detect_probe) at h)
        | inr (last, e) ↦ elim (Bool-cases (lt level.price last.close)) [
          | inl over ↦
              let closed_over : level.price ≺ last.close = ground arith in
              recovered-IsProbe candles level.price atr_value params last p e closed_over
                (rw (e, over, detect_probe) at h)
          | inr under ↦ cc (
              not_recovered-go_on candles level.price params (length candles - 1) p
                (rw (e, under, detect_probe) at h))
        ]
      ]

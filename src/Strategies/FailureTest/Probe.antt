-- ===== src/Strategies/FailureTest/Probe.antt =====
-- The probe under the support and the recovery from it: `detect_probe` of setup.rs. A read by index is of
-- a candle of the series.
use daytradebot.Base.{
  ℕ, zero, suc, ◌+◌, ◌-◌, ◌&&◌, Option, none, some, List, length, get_elem?, get_last?, ltb, ◌==◌,
  if◌then◌else◌,
}
use daytradebot.Decimal.{Decimal, ◌⊖◌, ◌⊗◌, ◌⊘◌, le, lt, is_zero}
use daytradebot.Domain.Market.{Candle, range}
use daytradebot.Domain.Signals.{RejectionReason}
use daytradebot.Risk.{Check, go_on, reject, reject_if, ◌>>=◌, ◌>>◌}
use daytradebot.Strategies.Checks.{needed, slice, lowest}
use daytradebot.Strategies.Trendline.Trend.{low_at, close_at}
use daytradebot.Strategies.FailureTest.Params.{FailureParameters}
use daytradebot.Strategies.FailureTest.Support.{SupportLevel}

pub record Probe (D : Type 0) : Type 0 where
  pub start_index : ℕ
  pub recovery_index : ℕ
  pub extreme : D
  pub depth : D
  pub bars : ℕ

-- A run that has a start, or there is no probe.
abbrev pub started : Option ℕ → Check ℕ
started none = reject RejectionReason.no_probe
started (some start) = go_on start

module _ {D : Type 0} ⦃d : Decimal D⦄ where
  -- Back from a candle, as long as the one before has its low under the level.
  unfoldable pub run_back : List (Candle D) → D → ℕ → ℕ
  run_back candles s zero = zero
  run_back candles s (suc n) =
      let earlier = run_back candles s n in if lt (low_at candles n) s then earlier else suc n

  unfoldable pub probe_run_start : List (Candle D) → ℕ → D → Option ℕ
  probe_run_start candles run_end s =
      if le s (low_at candles run_end) then none else some (run_back candles s run_end)

  abbrev pub probe_of : List (Candle D) → D → ℕ → ℕ → Probe D
  probe_of candles s start recovery_index =
      let extreme = lowest (slice start (recovery_index + 1) candles) in
      record {
        start_index = start;
        recovery_index = recovery_index;
        extreme = extreme;
        depth = s ⊖ extreme;
        bars = recovery_index - start + 1;
      }

  unfoldable pub validate_probe :
      List (Candle D) → D → D → FailureParameters D → ℕ → ℕ → Check (Probe D)
  validate_probe candles s atr_value params start recovery_index = do
    let p = probe_of candles s start recovery_index
    reject_if (lt (params.probe_max_atr_mult ⊗ atr_value) p.depth) RejectionReason.probe_too_deep
    recovery ← needed (get_elem? candles recovery_index)
    reject_if (is_zero (range recovery)) RejectionReason.weak_recovery_bar
    reject_if
        (lt ((recovery.close ⊖ recovery.low) ⊘ range recovery) params.signal_close_min_position)
        RejectionReason.weak_recovery_bar
    go_on p

  -- The last candle of the run under the level: the last one of the series, or the one before it.
  abbrev pub run_end_of : D → Candle D → ℕ → ℕ
  run_end_of s last j = if lt last.low s then j else j - 1

  -- The last close is over the level.
  unfoldable pub recovered :
      List (Candle D) → D → D → FailureParameters D → Candle D → ℕ → Check (Probe D)
  recovered candles s atr_value params last j = do
    start ← started (probe_run_start candles (run_end_of s last j) s)
    reject_if (run_end_of s last j == j - 1 && lt s (close_at candles (j - 1)))
        RejectionReason.no_probe
    reject_if (ltb params.probe_max_bars (run_end_of s last j - start + 1))
        RejectionReason.probe_too_long
    validate_probe candles s atr_value params start j

  -- It is not: the reason for the refusal.
  unfoldable pub not_recovered : List (Candle D) → D → FailureParameters D → ℕ → Check (Probe D)
  not_recovered candles s params j = do
    start ← started (probe_run_start candles j s)
    reject_if (ltb params.probe_max_bars (j - start + 1)) RejectionReason.probe_too_long
    reject RejectionReason.no_recovery_close

  unfoldable pub detect_probe :
      List (Candle D) → SupportLevel D → D → FailureParameters D → Check (Probe D)
  detect_probe candles level atr_value params = elim (get_last? candles) [
    | none ↦ reject RejectionReason.incomplete_setup
    | some last ↦
        if lt level.price last.close
        then recovered candles level.price atr_value params last (length candles - 1)
        else not_recovered candles level.price params (length candles - 1)
  ]

-- ===== src/Strategies/FailureTest/Entry.antt =====
-- The setup, its prices and its signal: `detect_setup` of setup.rs, and entry.rs.
use daytradebot.Base.{
  ℕ, ◌+◌, Bool, false, String, Option, none, some, List, length, get_elem?, ltb, if◌then◌else◌,
}
use daytradebot.Decimal.{Decimal, ◌⊕◌, ◌⊖◌, ◌⊗◌, ◌⊘◌, le, lt}
use daytradebot.Indicators.{newest, total, is_short}
use daytradebot.Domain.Market.{Candle, TimeFrame, range}
use daytradebot.Domain.Signals.{long, RejectionReason, Signal}
use daytradebot.Risk.{Check, go_on, reject_if, ◌>>=◌, ◌>>◌, Prices}
use daytradebot.Strategies.Checks.{accepted_signal, needed}
use daytradebot.Strategies.FailureTest.Params.{FailureParameters}
use daytradebot.Strategies.FailureTest.Support.{SupportLevel, find_support_level}
use daytradebot.Strategies.FailureTest.Probe.{Probe, detect_probe}

pub record FailureSetup (D : Type 0) : Type 0 where
  pub signal_index : ℕ
  pub level : SupportLevel D
  pub probe : Probe D
  pub prices : Prices D

module _ {D : Type 0} ⦃d : Decimal D⦄ where
  unfoldable pub avg_bar_range : List (Candle D) → ℕ → Option D
  avg_bar_range candles period =
      if is_short candles period
      then none
      else some (total (newest range candles period) ⊘ d.of_ℕ period)

  abbrev pub failure_entry : Candle D → FailureParameters D → D
  failure_entry recovery params =
      if params.is_market_next_open
      then recovery.close
      else recovery.high ⊕ params.entry_offset_ticks ⊗ params.tick_size

  -- Under the extreme by a tick and half of the jitter.
  abbrev pub failure_stop : Probe D → D → FailureParameters D → D
  failure_stop probe atr_value params =
      probe.extreme ⊖ params.tick_size ⊖ params.stop_jitter_atr_mult ⊗ atr_value ⊘ d.of_ℕ 2

  unfoldable pub failure_prices : Candle D → Probe D → D → FailureParameters D → Prices D
  failure_prices recovery probe atr_value params =
      let entry = failure_entry recovery params in
      let stop = failure_stop probe atr_value params in
      record {
        entry = entry;
        stop = stop;
        target = entry ⊕ params.target_r_multiple ⊗ (entry ⊖ stop);
      }

  -- A risk within the average range of a bar, where that is known.
  abbrev pub is_noise : D → Option D → FailureParameters D → Bool
  is_noise risk none params = false
  is_noise risk (some average) params = lt risk (params.min_stop_bar_ranges ⊗ average)

  -- `evaluate_prices`
  unfoldable pub failure_checked :
      List (Candle D) → Prices D → D → FailureParameters D → Check (Prices D)
  failure_checked candles p atr_value params = do
    let risk = p.entry ⊖ p.stop
    reject_if (le risk d.nought) RejectionReason.stop_within_noise
    reject_if (is_noise risk (avg_bar_range candles 20) params) RejectionReason.stop_within_noise
    reject_if (lt (params.max_stop_atr_mult ⊗ atr_value) risk) RejectionReason.stop_too_wide
    reject_if (lt ((p.target ⊖ p.entry) ⊘ risk) params.min_risk_reward)
        RejectionReason.poor_risk_reward
    go_on p

  -- `detect_setup`
  unfoldable pub detect_failure : List (Candle D) → D → FailureParameters D → Check (FailureSetup D)
  detect_failure candles atr_value params = do
    reject_if (ltb (length candles) (params.level_min_age_candles + params.probe_max_bars + 3))
        RejectionReason.incomplete_setup
    level ← find_support_level candles params
    probe ← detect_probe candles level atr_value params
    recovery ← needed (get_elem? candles probe.recovery_index)
    prices ←
        failure_checked candles (failure_prices recovery probe atr_value params) atr_value params
    go_on (record {
      signal_index = probe.recovery_index;
      level = level;
      probe = probe;
      prices = prices;
    })

  unfoldable pub failure_signal : String → TimeFrame → Prices D → FailureParameters D → ℕ → Signal D
  failure_signal symbol timeframe p params now =
      accepted_signal symbol timeframe long params.entry_order_type p
        (d.abs ((p.target ⊖ p.entry) ⊘ (p.entry ⊖ p.stop))) params.risk_per_trade_pct now

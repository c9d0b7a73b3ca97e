-- ===== src/Strategies/FirstPullback/Entry.antt =====
-- Entry, stop and target, and the signal: entry.rs.
use daytradebot.Base.{ℕ, Bool, false, String, Option, none, some, List, length}
use daytradebot.Decimal.{Decimal, ◌⊕◌, ◌⊖◌, ◌⊗◌, ◌⊘◌, le, lt, min}
use daytradebot.Domain.Market.{Candle, TimeFrame}
use daytradebot.Domain.Signals.{long, RejectionReason, Signal}
use daytradebot.Risk.{Check, go_on, reject_if, ◌>>◌, Prices}
use daytradebot.Strategies.Checks.{accepted_signal}
use daytradebot.Strategies.FirstPullback.Params.{FirstPullbackParameters}
use daytradebot.Strategies.FirstPullback.Level.{avg_range}
use daytradebot.Strategies.FirstPullback.Pullback.{PullbackSetup}

module _ {D : Type 0} ⦃d : Decimal D⦄ where
  -- The target is the projection of the impulse, or the multiple of the risk if that is less.
  unfoldable pub pullback_prices : PullbackSetup D → FirstPullbackParameters D → Prices D
  pullback_prices setup params =
      let entry = setup.bar.high ⊕ params.entry_offset_ticks ⊗ params.tick_size in
      let stop = setup.pivot ⊖ params.tick_size in
      record {
        entry = entry;
        stop = stop;
        target =
            min (setup.impulse_high ⊕ setup.impulse)
              (entry ⊕ params.target_r_multiple ⊗ (entry ⊖ stop));
      }

  -- A risk within the average range of a bar, where that is known.
  abbrev pub within_noise : D → Option D → FirstPullbackParameters D → Bool
  within_noise risk none params = false
  within_noise risk (some average) params = lt risk (params.min_stop_bar_ranges ⊗ average)

  -- `evaluate_prices`
  unfoldable pub pullback_checked :
      List (Candle D) → Prices D → D → FirstPullbackParameters D → Check (Prices D)
  pullback_checked candles p atr_value params =
      let risk = p.entry ⊖ p.stop in
      do
        reject_if (le risk d.nought) RejectionReason.stop_too_wide
        reject_if (within_noise risk (avg_range candles (length candles) params.avg_period) params)
            RejectionReason.stop_within_noise
        reject_if (lt (params.max_stop_atr_mult ⊗ atr_value) risk) RejectionReason.stop_too_wide
        reject_if (le p.target p.entry) RejectionReason.poor_risk_reward
        reject_if (lt ((p.target ⊖ p.entry) ⊘ risk) params.min_risk_reward)
            RejectionReason.poor_risk_reward
        go_on p

  unfoldable pub pullback_signal :
      String → TimeFrame → Prices D → FirstPullbackParameters D → ℕ → Signal D
  pullback_signal symbol timeframe p params now =
      accepted_signal symbol timeframe long params.entry_order_type p
        (d.abs ((p.target ⊖ p.entry) ⊘ (p.entry ⊖ p.stop))) params.risk_per_trade_pct now

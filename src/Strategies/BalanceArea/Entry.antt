-- ===== src/Strategies/BalanceArea/Entry.antt =====
-- Entry, stop and target, and the signal: entry.rs.
use daytradebot.Base.{ℕ, String}
use daytradebot.Decimal.{Decimal, ◌⊕◌, ◌⊖◌, ◌⊗◌, ◌⊘◌, lt, is_zero}
use daytradebot.Domain.Market.{Candle, TimeFrame}
use daytradebot.Domain.Signals.{Direction, long, short, RejectionReason, Signal}
use daytradebot.Risk.{Check, go_on, reject_if, ◌>>◌, Prices, risk_distance, risk_reward}
use daytradebot.Strategies.Checks.{accepted_signal, in_favour}
use daytradebot.Strategies.BalanceArea.Params.{BalanceParameters}
use daytradebot.Strategies.BalanceArea.Area.{Area}

module _ {D : Type 0} ⦃d : Decimal D⦄ where
  abbrev pub breakout_entry : Direction → Candle D → BalanceParameters D → D
  breakout_entry long bar params = bar.high ⊕ params.entry_offset_ticks ⊗ params.tick_size
  breakout_entry short bar params = bar.low ⊖ params.entry_offset_ticks ⊗ params.tick_size

  -- The stop stands inside of the area.
  abbrev pub area_stop : Direction → Area D → D → BalanceParameters D → D
  area_stop long area atr_value params = area.high ⊖ params.stop_buffer_atr_mult ⊗ atr_value
  area_stop short area atr_value params = area.low ⊕ params.stop_buffer_atr_mult ⊗ atr_value

  unfoldable pub breakout_prices :
      Direction → Candle D → Area D → D → BalanceParameters D → Prices D
  breakout_prices direction bar area atr_value params =
      let entry = breakout_entry direction bar params in
      let stop = area_stop direction area atr_value params in
      record {
        entry = entry;
        stop = stop;
        target = in_favour direction entry (params.target_r_multiple ⊗ d.abs (entry ⊖ stop));
      }

  -- `evaluate_prices`
  unfoldable pub breakout_checked : Prices D → D → BalanceParameters D → Check (Prices D)
  breakout_checked p atr_value params = do
    reject_if (is_zero (risk_distance p)) RejectionReason.stop_within_noise
    reject_if (lt (params.max_stop_atr_mult ⊗ atr_value) (risk_distance p))
        RejectionReason.stop_too_wide
    reject_if (lt (risk_reward p) params.min_risk_reward) RejectionReason.poor_risk_reward
    go_on p

  unfoldable pub breakout_signal :
      String → TimeFrame → Direction → Prices D → BalanceParameters D → ℕ → Signal D
  breakout_signal symbol timeframe direction p params now =
      accepted_signal symbol timeframe direction params.entry_order_type p
        (d.abs ((p.target ⊖ p.entry) ⊘ d.abs (p.entry ⊖ p.stop))) params.risk_per_trade_pct now

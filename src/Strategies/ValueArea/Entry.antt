-- ===== src/Strategies/ValueArea/Entry.antt =====
-- Entry, stop and target, and the signal: entry.rs.
use daytradebot.Base.{ℕ, String, Bool, true, false, not, ◌&&◌, ◌||◌, if◌then◌else◌}
use daytradebot.Decimal.{Decimal, ◌⊕◌, ◌⊖◌, ◌⊗◌, ◌⊘◌, le, lt, is_zero}
use daytradebot.Domain.Market.{Candle, TimeFrame}
use daytradebot.Domain.Orders.{EntryOrderType}
use daytradebot.Domain.Signals.{Direction, long, short, RejectionReason, Signal}
use daytradebot.Risk.{Check, go_on, reject_if, ◌>>◌, Prices, risk_distance}
use daytradebot.Strategies.Checks.{accepted_signal}
use daytradebot.Strategies.ValueArea.Params.{ValueParameters}
use daytradebot.Strategies.ValueArea.Profile.{ValueArea}
use daytradebot.Strategies.ValueArea.Setup.{TraversalSetup}

abbrev pub is_limit : EntryOrderType → Bool
is_limit EntryOrderType.limit = true
is_limit EntryOrderType.stop = false

module _ {D : Type 0} ⦃d : Decimal D⦄ where
  abbrev pub accepted_entry : Direction → Candle D → ValueParameters D → D
  accepted_entry direction bar params =
      if is_limit params.entry_order_type then bar.close else elim direction [
        | long ↦ bar.high ⊕ params.entry_offset_ticks ⊗ params.tick_size
        | short ↦ bar.low ⊖ params.entry_offset_ticks ⊗ params.tick_size
      ]

  -- The stop beyond the near edge of the area, and the target at the far one.
  abbrev pub stop_beyond : Direction → ValueArea D → D → D
  stop_beyond long va buffer = va.low ⊖ buffer
  stop_beyond short va buffer = va.high ⊕ buffer

  abbrev pub far_edge : Direction → ValueArea D → D
  far_edge long va = va.high
  far_edge short va = va.low

  abbrev pub reward_of : Direction → Prices D → D
  reward_of long p = p.target ⊖ p.entry
  reward_of short p = p.entry ⊖ p.target

  unfoldable pub traversal_prices :
      TraversalSetup D → ValueArea D → D → ValueParameters D → Prices D
  traversal_prices s va atr_value params = record {
    entry = accepted_entry s.direction s.bar params;
    stop = stop_beyond s.direction va (params.tick_size ⊕ params.stop_buffer_atr ⊗ atr_value);
    target = far_edge s.direction va;
  }

  -- `evaluate_prices`
  unfoldable pub traversal_checked : Direction → Prices D → D → ValueParameters D → Check (Prices D)
  traversal_checked direction p atr_value params = do
    reject_if
        (le (risk_distance p) params.tick_size
          || not (is_zero atr_value) && lt (risk_distance p) (params.min_stop_atr ⊗ atr_value))
        RejectionReason.stop_within_noise
    reject_if (not (is_zero atr_value) && lt (params.max_stop_atr ⊗ atr_value) (risk_distance p))
        RejectionReason.stop_too_wide
    reject_if (le (reward_of direction p) d.nought) RejectionReason.poor_risk_reward
    reject_if (lt (reward_of direction p ⊘ risk_distance p) params.min_risk_reward)
        RejectionReason.poor_risk_reward
    go_on p

  unfoldable pub traversal_signal :
      String → TimeFrame → Direction → Prices D → ValueParameters D → ℕ → Signal D
  traversal_signal symbol timeframe direction p params now =
      accepted_signal symbol timeframe direction params.entry_order_type p
        (d.abs ((p.target ⊖ p.entry) ⊘ d.abs (p.entry ⊖ p.stop))) params.risk_per_trade_pct now

-- ===== src/Strategies/OpeningReversal/Entry.antt =====
-- Entry, stop and target, and the signal: entry.rs.
use daytradebot.Base.{ℕ, Bool, some, String, if◌then◌else◌}
use daytradebot.Decimal.{Decimal, ◌⊕◌, ◌⊖◌, ◌⊗◌, ◌⊘◌, lt, is_zero}
use daytradebot.Domain.Market.{Candle, TimeFrame, range}
use daytradebot.Domain.Signals.{Direction, long, short, RejectionReason, Signal, SignalStatus}
use daytradebot.Risk.{Check, go_on, reject_if, ◌>>◌}
use daytradebot.Strategies.Checks.{against, in_favour, percent_of}
use daytradebot.Strategies.OpeningReversal.Params.{StrategyParameters}
use daytradebot.Strategies.OpeningReversal.Setup.{ReversalSetup}

pub record EntryPrices (D : Type 0) : Type 0 where
  pub entry_price : D
  pub stop_price : D
  pub target_price : D
  pub monetary_stop : Bool

module _ {D : Type 0} ⦃d : Decimal D⦄ where
  -- One tick beyond the signal bar, and one beyond its other end.
  abbrev pub bar_entry : Direction → Candle D → StrategyParameters D → D
  bar_entry long c params = c.high ⊕ params.entry_offset_ticks ⊗ params.tick_size
  bar_entry short c params = c.low ⊖ params.entry_offset_ticks ⊗ params.tick_size

  abbrev pub bar_stop : Direction → Candle D → StrategyParameters D → D
  bar_stop long c params = c.low ⊖ params.tick_size
  bar_stop short c params = c.high ⊕ params.tick_size

  -- A risk of too many average ranges is cut to a part of the bar's range.
  unfoldable pub is_monetary : ReversalSetup D → D → StrategyParameters D → Bool
  is_monetary s atr_value params =
      lt (params.stop_atr_mult ⊗ atr_value)
        (d.abs (bar_entry s.direction s.bar params ⊖ bar_stop s.direction s.bar params))

  unfoldable pub prices_at : ReversalSetup D → D → StrategyParameters D → EntryPrices D
  prices_at s atr_value params =
      let entry = bar_entry s.direction s.bar params in
      let monetary = is_monetary s atr_value params in
      let stop =
        if monetary
        then against s.direction entry (params.monetary_stop_range_pct ⊗ range s.bar)
        else bar_stop s.direction s.bar params in
      record {
        entry_price = entry;
        stop_price = stop;
        target_price =
            in_favour s.direction entry (params.target_r_multiple ⊗ d.abs (entry ⊖ stop));
        monetary_stop = monetary;
      }

  abbrev pub ratio_of : EntryPrices D → D
  ratio_of p = d.abs (p.target_price ⊖ p.entry_price) ⊘ d.abs (p.entry_price ⊖ p.stop_price)

  unfoldable pub evaluate_prices :
      ReversalSetup D → D → StrategyParameters D → Check (EntryPrices D)
  evaluate_prices s atr_value params = do
    reject_if
        (is_zero (d.abs (bar_entry s.direction s.bar params ⊖ bar_stop s.direction s.bar params)))
        RejectionReason.stop_within_noise
    reject_if (lt (ratio_of (prices_at s atr_value params)) params.min_risk_reward)
        RejectionReason.poor_risk_reward
    go_on (prices_at s atr_value params)

  -- The signal at the instant `now`, without the texts and the snapshot of the market.
  unfoldable pub build_signal :
      String → TimeFrame → ReversalSetup D → EntryPrices D → StrategyParameters D → ℕ → Signal D
  build_signal symbol timeframe s p params now = record {
    symbol = symbol;
    timeframe = timeframe;
    timestamp = now;
    direction = s.direction;
    status = SignalStatus.accepted;
    entry_order_type = params.entry_order_type;
    entry_price = some p.entry_price;
    stop_price = some p.stop_price;
    target_price = some p.target_price;
    risk_reward_ratio =
        some (d.abs ((p.target_price ⊖ p.entry_price) ⊘ d.abs (p.entry_price ⊖ p.stop_price)));
    risk_percent = percent_of params.risk_per_trade_pct;
  }

-- ===== src/Strategies/RangeFade/Setup.antt =====
-- The failed break of the day's extreme with a strong bar against it, its prices and its signal:
-- setup.rs and entry.rs. The bar is judged as in the strategy on yesterday's levels.
use daytradebot.Base.{ℕ, Bool, not, ◌&&◌, ◌||◌, String, List, get_last?, if◌then◌else◌}
use daytradebot.Decimal.{Decimal, ◌⊕◌, ◌⊖◌, ◌⊗◌, ◌⊘◌, le, lt, is_zero}
use daytradebot.Session.{NewYork}
use daytradebot.Domain.Market.{Candle, TimeFrame, range, body}
use daytradebot.Domain.Signals.{Direction, long, short, RejectionReason, Signal}
use daytradebot.Risk.{
  Check, go_on, reject, reject_if, ◌>>=◌, ◌>>◌, Prices, risk_distance, risk_reward,
}
use daytradebot.Strategies.Checks.{accepted_signal, needed, against, in_favour}
use daytradebot.Strategies.OpeningReversal.Setup.{closes_well, wick}
use daytradebot.Strategies.RangeFade.Params.{FadeParameters}
use daytradebot.Strategies.RangeFade.RangeDay.{day_extremes_before_signal}
use daytradebot.Strategies.RangeFade.Vetoes.{ema_side_veto}

-- The signal bar is the last one; the source holds its index.
pub record FadeSetup (D : Type 0) : Type 0 where
  pub direction : Direction
  pub broken_extreme : D
  pub extension_atr : D
  pub bar : Candle D
  pub body_pct : D
  pub wick_pct : D

module _ {D : Type 0} ⦃d : Decimal D⦄ where
  -- Which of the two extremes, high and low, the bar breaks, and by how much, which is limited.
  unfoldable pub broken_side : Candle D → D × D → D → Check (Direction × (D × D))
  broken_side bar (prev_high, prev_low) max_ext =
      let up = bar.high ⊖ prev_high in
      let down = prev_low ⊖ bar.low in
      if lt d.nought up && le up max_ext
      then go_on (short, (prev_high, up))
      else if lt d.nought down && le down max_ext
      then go_on (long, (prev_low, down))
      else if lt max_ext up || lt max_ext down
      then reject RejectionReason.breakout_too_strong
      else reject RejectionReason.no_probe

  unfoldable pub is_strong_fade : Direction → Candle D → FadeParameters D → Bool
  is_strong_fade direction bar params =
      le params.signal_body_min_pct (body bar ⊘ range bar)
      && closes_well direction bar
      && le params.signal_wick_min_pct (wick direction bar ⊘ range bar)

  abbrev pub fade_of : Candle D → Direction × (D × D) → D → FadeSetup D
  fade_of bar (direction, (extreme, extension)) atr_value = record {
    direction = direction;
    broken_extreme = extreme;
    extension_atr = if is_zero atr_value then d.nought else extension ⊘ atr_value;
    bar = bar;
    body_pct = body bar ⊘ range bar;
    wick_pct = wick direction bar ⊘ range bar;
  }

  unfoldable pub detect_fade :
      NewYork → List (Candle D) → D → FadeParameters D → Check (FadeSetup D)
  detect_fade ny candles atr_value params = do
    bar ← needed (get_last? candles)
    extremes ← needed (day_extremes_before_signal ny candles)
    broken ← broken_side bar extremes (params.max_extension_atr_mult ⊗ atr_value)
    reject_if (params.use_ema_side_rule && ema_side_veto candles broken.0)
        RejectionReason.wrong_side_of_ema
    reject_if (is_zero (range bar)) RejectionReason.weak_confirmation
    reject_if (not (is_strong_fade broken.0 bar params)) RejectionReason.weak_confirmation
    go_on (fade_of bar broken atr_value)

  abbrev pub fade_entry : Direction → Candle D → FadeParameters D → D
  fade_entry long bar params = bar.high ⊕ params.entry_offset_ticks ⊗ params.tick_size
  fade_entry short bar params = bar.low ⊖ params.entry_offset_ticks ⊗ params.tick_size

  abbrev pub fade_stop : Direction → Candle D → FadeParameters D → D
  fade_stop long bar params = against long bar.low params.tick_size
  fade_stop short bar params = against short bar.high params.tick_size

  unfoldable pub fade_prices : FadeSetup D → FadeParameters D → Prices D
  fade_prices setup params =
      let entry = fade_entry setup.direction setup.bar params in
      let stop = fade_stop setup.direction setup.bar params in
      record {
        entry = entry;
        stop = stop;
        target = in_favour setup.direction entry (params.target_r_multiple ⊗ d.abs (entry ⊖ stop));
      }

  -- `evaluate_prices`
  unfoldable pub fade_checked : Prices D → FadeParameters D → Check (Prices D)
  fade_checked p params = do
    reject_if (is_zero (risk_distance p)) RejectionReason.stop_within_noise
    reject_if (lt (risk_reward p) params.min_risk_reward) RejectionReason.poor_risk_reward
    go_on p

  unfoldable pub fade_signal :
      String → TimeFrame → Direction → Prices D → FadeParameters D → ℕ → Signal D
  fade_signal symbol timeframe direction p params now =
      accepted_signal symbol timeframe direction params.entry_order_type p
        (d.abs ((p.target ⊖ p.entry) ⊘ d.abs (p.entry ⊖ p.stop))) params.risk_per_trade_pct now

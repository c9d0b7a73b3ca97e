-- ===== src/Strategies/Trendline/Setup.antt =====
-- The test of the old extreme after the break, its prices and its signal: setup.rs and entry.rs.
use daytradebot.Base.{ℕ, ◌-◌, Bool, not, ◌&&◌, ◌||◌, String, List, length, get_last?, leb}
use daytradebot.Decimal.{Decimal, ◌⊕◌, ◌⊖◌, ◌⊗◌, ◌⊘◌, le, lt, min, max, is_zero}
use daytradebot.Domain.Market.{Candle, TimeFrame, range, body}
use daytradebot.Domain.Signals.{Direction, long, short, RejectionReason, Signal}
use daytradebot.Risk.{Check, go_on, reject_if, ◌>>=◌, ◌>>◌, Prices, risk_distance, risk_reward}
use daytradebot.Strategies.Checks.{accepted_signal, needed, against, in_favour}
use daytradebot.Strategies.Trendline.Params.{TrendlineParameters}
use daytradebot.Strategies.Trendline.Trend.{TrendKind, bear, bull, TrendContext}
use daytradebot.Strategies.Trendline.Break.{TrendlineBreak}

-- The signal bar is the last one; the source holds its index.
pub record TestSetup (D : Type 0) : Type 0 where
  pub direction : Direction
  pub bar : Candle D
  pub test_extreme : D
  pub test_offset : D
  pub is_overshoot : Bool
  pub body_pct : D
  pub wick_pct : D

-- The direction against the trend.
abbrev pub reversal_of : TrendKind → Direction
reversal_of bear = long
reversal_of bull = short

module _ {D : Type 0} ⦃d : Decimal D⦄ where
  abbrev pub extreme_of : TrendKind → Candle D → D
  extreme_of bear bar = bar.low
  extreme_of bull bar = bar.high

  -- How far the test stopped short of the old extreme, negative where it went beyond.
  abbrev pub offset_of : TrendKind → D → Candle D → D
  offset_of bear extreme_price bar = bar.low ⊖ extreme_price
  offset_of bull extreme_price bar = extreme_price ⊖ bar.high

  abbrev pub tolerance : TrendContext D → TrendlineParameters D → D
  tolerance trend params = d.abs trend.extreme_price ⊗ params.test_tolerance_pct ⊘ d.of_ℕ 100

  abbrev pub test_wick : Direction → Candle D → D
  test_wick long bar = min bar.close bar.«open» ⊖ bar.low
  test_wick short bar = bar.high ⊖ max bar.close bar.«open»

  abbrev pub turns : Direction → Candle D → Bool
  turns long bar =
      lt bar.«open» bar.close && le (bar.low ⊕ range bar ⊗ d.of_ℕ 2 ⊘ d.of_ℕ 3) bar.close
  turns short bar = lt bar.close bar.«open» && le bar.close (bar.low ⊕ range bar ⊘ d.of_ℕ 3)

  unfoldable pub is_reversal_bar : Direction → Candle D → TrendlineParameters D → Bool
  is_reversal_bar direction bar params =
      turns direction bar
      && not (lt (body bar ⊘ range bar) params.signal_body_min_pct)
      && not (lt (test_wick direction bar ⊘ range bar) params.signal_wick_min_pct)

  abbrev pub test_of : TrendContext D → Candle D → TestSetup D
  test_of trend bar =
      let offset = offset_of trend.kind trend.extreme_price bar in
      record {
        direction = reversal_of trend.kind;
        bar = bar;
        test_extreme = extreme_of trend.kind bar;
        test_offset = offset;
        is_overshoot = lt offset d.nought;
        body_pct = body bar ⊘ range bar;
        wick_pct = test_wick (reversal_of trend.kind) bar ⊘ range bar;
      }

  unfoldable pub detect_test :
      List (Candle D)
      → TrendContext D
      → TrendlineBreak D
      → D
      → TrendlineParameters D
      → Check (TestSetup D)
  detect_test candles trend brk atr_value params = do
    reject_if (leb (length candles - 1) brk.index) RejectionReason.no_extreme_test
    bar ← needed (get_last? candles)
    let t = test_of trend bar
    reject_if (t.is_overshoot && lt (params.max_overshoot_atr ⊗ atr_value) (d.abs t.test_offset))
        RejectionReason.reversal_nullified
    reject_if (not t.is_overshoot && lt (tolerance trend params) t.test_offset)
        RejectionReason.no_extreme_test
    reject_if (is_zero (range bar)) RejectionReason.weak_confirmation
    reject_if (not (is_reversal_bar (reversal_of trend.kind) bar params))
        RejectionReason.weak_confirmation
    go_on t

  abbrev pub test_entry : Direction → Candle D → TrendlineParameters D → D
  test_entry long bar params = bar.high ⊕ params.entry_offset_ticks ⊗ params.tick_size
  test_entry short bar params = bar.low ⊖ params.entry_offset_ticks ⊗ params.tick_size

  unfoldable pub test_prices : TestSetup D → TrendlineParameters D → Prices D
  test_prices setup params =
      let entry = test_entry setup.direction setup.bar params in
      let stop = against setup.direction setup.test_extreme params.tick_size in
      record {
        entry = entry;
        stop = stop;
        target = in_favour setup.direction entry (params.target_r_multiple ⊗ d.abs (entry ⊖ stop));
      }

  -- `evaluate_prices`
  unfoldable pub test_checked : Prices D → D → TrendlineParameters D → Check (Prices D)
  test_checked p atr_value params = do
    reject_if
        (le (risk_distance p) params.tick_size
          || not (is_zero atr_value) && lt (risk_distance p) (params.min_stop_atr ⊗ atr_value))
        RejectionReason.stop_within_noise
    reject_if (not (is_zero atr_value) && lt (params.max_stop_atr ⊗ atr_value) (risk_distance p))
        RejectionReason.stop_too_wide
    reject_if (lt (risk_reward p) params.min_risk_reward) RejectionReason.poor_risk_reward
    go_on p

  unfoldable pub test_signal :
      String → TimeFrame → Direction → Prices D → TrendlineParameters D → ℕ → Signal D
  test_signal symbol timeframe direction p params now =
      accepted_signal symbol timeframe direction params.entry_order_type p
        (d.abs ((p.target ⊖ p.entry) ⊘ d.abs (p.entry ⊖ p.stop))) params.risk_per_trade_pct now

-- ===== src/Strategies/FailureTest/Primed.antt =====
-- Whether the market is ready for a reversal, and what an approval says: `check_context` of context.rs.
use daytradebot.Base.{
  ℕ, Bool, true, false, not, ◌&&◌, ◌||◌, ◌≡◌, Option, none, some, List, get_last?, leb,
  if◌then◌else◌,
}
use daytradebot.Decimal.{Decimal, ◌⊖◌, ◌⊗◌, lt, is_zero}
use daytradebot.Session.{NewYork, et_time}
use daytradebot.Indicators.{ema, atr, atr_percent}
use daytradebot.Context.{is_regular}
use daytradebot.Domain.Market.{Candle, MarketContext}
use daytradebot.Domain.Signals.{RejectionReason}
use daytradebot.Risk.{Check, go_on, reject, reject_if, ◌>>=◌, ◌>>◌}
use daytradebot.Strategies.Checks.{needed}
use daytradebot.Strategies.FailureTest.Params.{FailureParameters}
use daytradebot.Strategies.FailureTest.Momentum.{
  closes, macd_fast_value, touched_lower_keltner, drop_from_swing_high, macd_divergence,
  climax_in_progress,
}

-- The condition that made the market ready.
pub data Overextension : Type 0 where
  by_keltner by_drop by_divergence : Overextension

pub record ContextData (D : Type 0) : Type 0 where
  pub ema : Option D
  pub atr : D
  pub atr_pct : Option D
  pub keltner_lower : Option D
  pub macd_fast : Option D
  pub overextension : Overextension

-- The window in seconds of the New York day; a time that cannot be read lets nothing pass.
abbrev pub within_window : NewYork → ℕ → Option ℕ → Option ℕ → Bool
within_window ny ts (some start) (some end) = leb start (et_time ny ts) && leb (et_time ny ts) end
within_window ny ts _ _ = false

module _ {D : Type 0} ⦃d : Decimal D⦄ where
  abbrev pub is_abnormal : FailureParameters D → Option D → Bool
  is_abnormal params none = false
  is_abnormal params (some pct) = lt params.max_atr_pct pct

  abbrev pub lower_channel : FailureParameters D → D → Option D → Option D
  lower_channel params atr_value none = none
  lower_channel params atr_value (some e) = some (e ⊖ params.keltner_atr_mult ⊗ atr_value)

  -- The first of the three conditions that holds.
  unfoldable pub overextension_of : List (Candle D) → FailureParameters D → D → Check Overextension
  overextension_of candles params atr_value =
      if touched_lower_keltner candles params
      then go_on by_keltner
      else if drop_from_swing_high candles params atr_value
      then go_on by_drop
      else if macd_divergence candles params
      then go_on by_divergence
      else reject RejectionReason.not_overextended

  abbrev pub data_of : List (Candle D) → FailureParameters D → D → Overextension → ContextData D
  data_of candles params atr_value over =
      let ema_value = daytradebot.Indicators.ema candles params.keltner_ema_period in
      record {
        ema = ema_value;
        atr = atr_value;
        atr_pct = atr_percent candles params.atr_period;
        keltner_lower = lower_channel params atr_value ema_value;
        macd_fast = macd_fast_value (closes candles) params.macd_fast_sma params.macd_slow_sma;
        overextension = over;
      }

  unfoldable pub check_context :
      NewYork → List (Candle D) → MarketContext D → FailureParameters D → Check (ContextData D)
  check_context ny candles ctx params = do
    last ← needed (get_last? candles)
    reject_if
        (not (is_regular ctx.market_phase)
          || not
              (within_window ny last.timestamp params.trading_start_time params.trading_end_time))
        RejectionReason.outside_trading_hours
    atr_value ← needed (atr candles params.atr_period)
    reject_if (is_zero atr_value) RejectionReason.incomplete_setup
    reject_if (is_abnormal params (atr_percent candles params.atr_period))
        RejectionReason.high_volatility
    reject_if (climax_in_progress candles params atr_value) RejectionReason.climax_in_progress
    over ← overextension_of candles params atr_value
    go_on (data_of candles params atr_value over)

  -- The condition holds, and those that are tried before it do not.
  abbrev pub Holds : List (Candle D) → FailureParameters D → D → Overextension → Type 0
  Holds candles params atr_value by_keltner = touched_lower_keltner candles params ≡ true
  Holds candles params atr_value by_drop =
      (touched_lower_keltner candles params ≡ false)
      × (drop_from_swing_high candles params atr_value ≡ true)
  Holds candles params atr_value by_divergence =
      (touched_lower_keltner candles params ≡ false)
      × (drop_from_swing_high candles params atr_value ≡ false)
      × (macd_divergence candles params ≡ true)

  -- What an approved context says.
  abbrev pub IsPrimed : List (Candle D) → FailureParameters D → ContextData D → Type 0
  IsPrimed candles params data_found =
      (atr candles params.atr_period ≡ some data_found.atr)
      × (is_zero data_found.atr ≡ false)
      × (is_abnormal params data_found.atr_pct ≡ false)
      × (climax_in_progress candles params data_found.atr ≡ false)
      × Holds candles params data_found.atr data_found.overextension

-- ===== src/Strategies/Trendline/Soundness.antt =====
-- What holds of a signal of the strategy.
use daytradebot.Base.{ℕ, ◌+◌, ◌≡◌, ap, sym, String, not, ◌&&◌, ◌||◌, some, List, length, arith, ltb}
use daytradebot.Decimal.{Decimal, ◌⊗◌, le, lt, is_zero, ◌≼◌, ◌≺◌}
use daytradebot.Session.{NewYork}
use daytradebot.Indicators.{atr}
use daytradebot.Context.{analyze as analyze_context}
use daytradebot.Domain.Market.{Candle, TimeFrame}
use daytradebot.Domain.Signals.{Signal, signal, RejectionReason}
use daytradebot.Risk.{go_on, Prices, prices_of, risk_distance, risk_reward}
use daytradebot.Strategies.Checks.{
  needed, answer-signal, bind-go_on, reject_if-go_on, LastWithin, last_in_hours-LastWithin,
  go_on-inj, lt-false, or-false, needed-go_on, built-prices,
}
use daytradebot.Strategies.Trendline.Params.{TrendlineParameters}
use daytradebot.Strategies.Trendline.Trend.{TrendContext, detect_trend}
use daytradebot.Strategies.Trendline.Break.{TrendlineBreak, check_hours, find_trendline_break}
use daytradebot.Strategies.Trendline.Setup.{
  TestSetup, detect_test, test_prices, test_checked, test_signal,
}
use daytradebot.Strategies.Trendline.Analysis.{analyzer_of, decide_signal, analyze_candles}
use daytradebot.Strategies.Trendline.Found.{
  IsTrend, detect_trend-IsTrend, IsBreak, find_trendline_break-IsBreak, IsTest, detect_test-IsTest,
}

module _ {D : Type 0} ⦃d : Decimal D⦄ where
  test_checked-bounds :
      (p q : Prices D) (atr_value : D) (params : TrendlineParameters D)
      → test_checked p atr_value params ≡ go_on q
      → (q ≡ p) × (params.tick_size ≺ risk_distance p) × (params.min_risk_reward ≼ risk_reward p)
  unfolding test_checked
  test_checked-bounds p q atr_value params h =
      let (e0, h0) =
        reject_if-go_on
          (le (risk_distance p) params.tick_size
            || not (is_zero atr_value) && lt (risk_distance p) (params.min_stop_atr ⊗ atr_value))
          RejectionReason.stop_within_noise _ q h in
      let (e1, h1) =
        reject_if-go_on
          (not (is_zero atr_value) && lt (params.max_stop_atr ⊗ atr_value) (risk_distance p))
          RejectionReason.stop_too_wide _ q h0 in
      let (e2, h2) =
        reject_if-go_on (lt (risk_reward p) params.min_risk_reward) RejectionReason.poor_risk_reward
          (go_on p) q h1 in
      let (wide, loud) = or-false (le (risk_distance p) params.tick_size) _ e0 in
      (
        sym (go_on-inj p q h2),
        ground (arith, wide),
        lt-false (risk_reward p) params.min_risk_reward e2,
      )

  -- Where a signal comes from: a trend, the break of its line and the test of its extreme.
  abbrev pub ComesFrom :
      TrendlineParameters D
      → List (Candle D)
      → D
      → TrendContext D
      → TrendlineBreak D
      → TestSetup D
      → Type 0
  ComesFrom params candles atr_value trend brk setup =
      (atr candles params.atr_period ≡ some atr_value)
      × IsTrend candles params trend
      × IsBreak candles params trend brk
      × IsTest candles params atr_value trend brk setup

  -- The prices of the setup, in its direction, with a risk over a tick and the ratio that is asked for.
  abbrev pub HasTestPrices : TrendlineParameters D → TestSetup D → Signal D → Type 0
  HasTestPrices params setup s =
      let p = test_prices setup params in
      (s.direction ≡ setup.direction)
      × (prices_of s ≡ go_on p)
      × (params.tick_size ≺ risk_distance p)
      × (params.min_risk_reward ≼ risk_reward p)

  test_signal-HasTestPrices :
      (symbol : String) (timeframe : TimeFrame) (setup : TestSetup D) (p : Prices D)
      (params : TrendlineParameters D) (now : ℕ) (atr_value : D) (s : Signal D)
      → test_checked (test_prices setup params) atr_value params ≡ go_on p
      → go_on (test_signal symbol timeframe setup.direction p params now) ≡ go_on s
      → HasTestPrices params setup s
  unfolding test_signal prices_of
  test_signal-HasTestPrices symbol timeframe setup p params now atr_value s checked h =
      let q = test_prices setup params in
      let made = test_signal symbol timeframe setup.direction p params now in
      let (same, loud, enough) = test_checked-bounds q p atr_value params checked in
      (
        sym (ap (λ t. t.direction) (go_on-inj made s h)),
        built-prices made s q (ap go_on same) h,
        loud,
        enough,
      )

  -- A signal of the strategy comes from a last candle within the window. There is a trend to the
  -- lowest low or the highest high of its window, the break is the first close of the leg after it
  -- beyond the line of the trend, not too old and of a leg with momentum, and the last bar, later than
  -- the break, tests the old extreme without going too far beyond it and turns against the trend. The
  -- prices are those of the setup, with a risk of more than a tick and the ratio that is asked for.
  pub trendline-IsSound :
      (ny : NewYork) (now : ℕ) (symbol : String) (params : TrendlineParameters D)
      (candles : List (Candle D)) (s : Signal D)
      → analyze_candles ny now symbol params candles ≡ signal s
      → LastWithin ny params.trading_start_time params.trading_end_time candles
        × ((atr_value : D) × ((trend : TrendContext D) × ((brk : TrendlineBreak D)
                × ((setup : TestSetup D) × (ComesFrom params candles atr_value trend brk setup
                      × HasTestPrices params setup s)))))
  unfolding analyze_candles decide_signal check_hours
  trendline-IsSound ny now symbol params candles s h =
      let h0 = answer-signal (decide_signal ny now symbol params candles) s h in
      let (enough, h1) =
        reject_if-go_on
          (ltb (length candles)
            (params.trend_lookback + params.break_max_age + params.atr_period + 5))
          RejectionReason.incomplete_setup _ s h0 in
      let (timeframe, (e2, h2)) = bind-go_on (needed params.operational_timeframe) _ s h1 in
      let (ctx, (e3, h3)) =
        bind-go_on (needed (analyze_context (analyzer_of params) symbol timeframe candles)) _ s
          h2 in
      let (u, (hours, h4)) = bind-go_on (check_hours ny candles params) _ s h3 in
      let (atr_value, (e5, h5)) = bind-go_on (needed (atr candles params.atr_period)) _ s h4 in
      let (trend, (e6, h6)) = bind-go_on (detect_trend candles params) _ s h5 in
      let (brk, (e7, h7)) = bind-go_on (find_trendline_break candles trend params) _ s h6 in
      let (setup, (e8, h8)) = bind-go_on (detect_test candles trend brk atr_value params) _ s h7 in
      let (p, (e9, h9)) =
        bind-go_on (test_checked (test_prices setup params) atr_value params) _ s h8 in
      let from : ComesFrom params candles atr_value trend brk setup = (
        needed-go_on (atr candles params.atr_period) atr_value e5,
        detect_trend-IsTrend candles params trend e6,
        find_trendline_break-IsBreak candles params trend brk e7,
        detect_test-IsTest candles params atr_value trend brk setup e8,
      ) in
      (
        last_in_hours-LastWithin ny params.trading_start_time params.trading_end_time candles hours,
        (
          atr_value,
          (
            trend,
            (
              brk,
              (
                setup,
                (
                  from,
                  test_signal-HasTestPrices symbol timeframe setup p params now atr_value s e9 h9,
                ),
              ),
            ),
          ),
        ),
      )

-- ===== src/Strategies/RangeFade/Soundness.antt =====
-- What holds of a signal of the strategy.
use daytradebot.Base.{ℕ, ◌≡◌, ap, sym, String, false, some, List, length, arith, ltb}
use daytradebot.Decimal.{Decimal, ◌≼◌}
use daytradebot.Session.{NewYork}
use daytradebot.Indicators.{atr}
use daytradebot.Context.{analyze as analyze_context}
use daytradebot.Domain.Market.{Candle, TimeFrame}
use daytradebot.Domain.Signals.{Signal, signal, RejectionReason}
use daytradebot.Risk.{go_on, Prices, prices_of, risk_reward}
use daytradebot.Strategies.Checks.{
  needed, answer-signal, bind-go_on, reject_if-go_on, LastWithin, last_in_hours-LastWithin,
  go_on-inj, needed-go_on, built-prices,
}
use daytradebot.Strategies.ValueArea.Days.{daily_atr}
use daytradebot.Strategies.RangeFade.Params.{FadeParameters}
use daytradebot.Strategies.RangeFade.RangeDay.{check_hours, check_range_day}
use daytradebot.Strategies.RangeFade.Vetoes.{is_midday_midrange, is_barb_wire}
use daytradebot.Strategies.RangeFade.Setup.{
  FadeSetup, detect_fade, fade_prices, fade_checked, fade_signal,
}
use daytradebot.Strategies.RangeFade.Analysis.{analyzer_of, decide_signal, analyze_candles}
use daytradebot.Strategies.RangeFade.Found.{
  IsRangeDay, check_range_day-IsRangeDay, IsFade, detect_fade-IsFade,
}

module _ {D : Type 0} ⦃d : Decimal D⦄ where
  fade_checked-enough :
      (p q : Prices D) (params : FadeParameters D)
      → fade_checked p params ≡ go_on q
      → (q ≡ p) × (params.min_risk_reward ≼ risk_reward p)
  unfolding fade_checked
  fade_checked-enough p q params h = (ground arith, ground arith)

  -- Where a signal comes from: a day without a trend, none of the vetoes, and a failed break.
  abbrev pub ComesFrom : NewYork → FadeParameters D → List (Candle D) → D → D → FadeSetup D → Type 0
  ComesFrom ny params candles atr_value daily_atr_value setup =
      (atr candles params.atr_period ≡ some atr_value)
      × (daily_atr ny candles params.daily_atr_period ≡ some daily_atr_value)
      × IsRangeDay ny candles daily_atr_value params
      × (is_midday_midrange ny candles params ≡ false)
      × (is_barb_wire candles params ≡ false)
      × IsFade ny candles atr_value params setup

  -- The prices of the setup, in its direction and with the ratio that the strategy asks for.
  abbrev pub HasFadePrices : FadeParameters D → FadeSetup D → Signal D → Type 0
  HasFadePrices params setup s =
      (s.direction ≡ setup.direction)
      × (prices_of s ≡ go_on (fade_prices setup params))
      × (params.min_risk_reward ≼ risk_reward (fade_prices setup params))

  fade_signal-HasFadePrices :
      (symbol : String) (timeframe : TimeFrame) (setup : FadeSetup D) (p : Prices D)
      (params : FadeParameters D) (now : ℕ) (s : Signal D)
      → fade_checked (fade_prices setup params) params ≡ go_on p
      → go_on (fade_signal symbol timeframe setup.direction p params now) ≡ go_on s
      → HasFadePrices params setup s
  unfolding fade_signal prices_of
  fade_signal-HasFadePrices symbol timeframe setup p params now s checked h =
      let q = fade_prices setup params in
      let made = fade_signal symbol timeframe setup.direction p params now in
      let (same, enough) = fade_checked-enough q p params checked in
      (
        sym (ap (λ t. t.direction) (go_on-inj made s h)),
        built-prices made s q (ap go_on same) h,
        enough,
      )

  -- A signal of the strategy comes from a last candle within the window, on a day with a flat
  -- average, pivots that do not all move one way and a range under its limit, not from the middle of
  -- the range at midday and not from overlapping bars. Its last bar goes beyond an extreme of the day
  -- by so much at most and is a strong one the other way, which is the direction of the signal; the
  -- prices are those of the setup, with the ratio that the strategy asks for.
  pub fade-IsSound :
      (ny : NewYork) (now : ℕ) (symbol : String) (params : FadeParameters D)
      (candles : List (Candle D)) (s : Signal D)
      → analyze_candles ny now symbol params candles ≡ signal s
      → LastWithin ny params.trading_start_time params.trading_end_time candles
        × ((atr_value : D) × ((daily_atr_value : D) × ((setup : FadeSetup D) × (ComesFrom ny params
                    candles atr_value daily_atr_value setup
                  × HasFadePrices params setup s))))
  unfolding analyze_candles decide_signal check_hours
  fade-IsSound ny now symbol params candles s h =
      let h0 = answer-signal (decide_signal ny now symbol params candles) s h in
      let (enough, h1) =
        reject_if-go_on (ltb (length candles) 40) RejectionReason.incomplete_setup _ s h0 in
      let (timeframe, (e2, h2)) = bind-go_on (needed params.operational_timeframe) _ s h1 in
      let (ctx, (e3, h3)) =
        bind-go_on (needed (analyze_context (analyzer_of params) symbol timeframe candles)) _ s
          h2 in
      let (u, (hours, h4)) = bind-go_on (check_hours ny candles params) _ s h3 in
      let (atr_value, (e5, h5)) = bind-go_on (needed (atr candles params.atr_period)) _ s h4 in
      let (daily, (e6, h6)) =
        bind-go_on (needed (daily_atr ny candles params.daily_atr_period)) _ s h5 in
      let (v, (e7, h7)) = bind-go_on (check_range_day ny candles daily params) _ s h6 in
      let (e8, h8) =
        reject_if-go_on (is_midday_midrange ny candles params) RejectionReason.midday_midrange _ s
          h7 in
      let (e9, h9) =
        reject_if-go_on (is_barb_wire candles params) RejectionReason.barb_wire _ s h8 in
      let (setup, (e10, h10)) = bind-go_on (detect_fade ny candles atr_value params) _ s h9 in
      let (p, (e11, h11)) = bind-go_on (fade_checked (fade_prices setup params) params) _ s h10 in
      let from : ComesFrom ny params candles atr_value daily setup = (
        needed-go_on (atr candles params.atr_period) atr_value e5,
        needed-go_on (daily_atr ny candles params.daily_atr_period) daily e6,
        check_range_day-IsRangeDay ny candles daily params e7,
        e8,
        e9,
        detect_fade-IsFade ny candles atr_value params setup e10,
      ) in
      (
        last_in_hours-LastWithin ny params.trading_start_time params.trading_end_time candles hours,
        (
          atr_value,
          (
            daily,
            (
              setup,
              (from, fade_signal-HasFadePrices symbol timeframe setup p params now s e11 h11),
            ),
          ),
        ),
      )

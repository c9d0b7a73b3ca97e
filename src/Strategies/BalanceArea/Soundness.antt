-- ===== src/Strategies/BalanceArea/Soundness.antt =====
-- What holds of a signal of the strategy.
use daytradebot.Base.{
  ℕ, ◌+◌, ◌≤◌, ◌≡◌, ◌∙◌, ap, sym, subst, String, ◌||◌, some, List, length, map, get_last?,
  Option-cases, inl, inr, arith, ltb,
}
use daytradebot.Decimal.{Decimal, ◌⊕◌, ◌⊗◌, ◌⊘◌, is_zero, ◌≼◌, ◌≺◌, lt}
use daytradebot.Session.{NewYork, et_date}
use daytradebot.Indicators.{atr}
use daytradebot.Context.{analyze as analyze_context}
use daytradebot.Domain.Market.{Candle, TimeFrame}
use daytradebot.Domain.Signals.{Direction, long, short, Signal, signal, RejectionReason}
use daytradebot.Risk.{go_on, Prices, prices_of, risk_distance, risk_reward}
use daytradebot.Strategies.Checks.{
  highest, lowest, needed, answer-signal, bind-go_on, reject_if-go_on, needed-go_on, LastWithin,
  or-false, ltb-false, lt-false, go_on-inj, last_in_hours-LastWithin,
}
use daytradebot.Strategies.BalanceArea.Params.{BalanceParameters}
use daytradebot.Strategies.BalanceArea.Area.{
  Area, sorted_dates, check_hours, area_candles, area_of, detect_balance_area, breakout_of,
  detect_breakout,
}
use daytradebot.Strategies.BalanceArea.Entry.{breakout_prices, breakout_checked, breakout_signal}
use daytradebot.Strategies.BalanceArea.Analysis.{analyzer_of, decide_signal, analyze_candles}

module _ {D : Type 0} ⦃d : Decimal D⦄ where
  -- The bar closed beyond the area on the side of the direction.
  abbrev pub BrokeOut : Direction → Area D → Candle D → Type 0
  BrokeOut long area bar = area.high ≺ bar.close
  BrokeOut short area bar = bar.close ≺ area.low

  -- The area of the candles before the last is narrow, and more than one day is in it.
  abbrev pub IsBalance : NewYork → List (Candle D) → D → BalanceParameters D → Area D → Type 0
  IsBalance ny candles atr_value params area =
      let cs = area_candles candles params.balance_lookback_candles in
      (area ≡ area_of cs atr_value)
      × (area.width_pct ≼ params.balance_max_width_pct)
      × (area.width_atr ≼ params.balance_max_width_atr_mult)
      × (2 ≤ length (sorted_dates (map (λ c. et_date ny c.timestamp) cs)))

  detect_balance_area-IsBalance :
      (ny : NewYork) (candles : List (Candle D)) (atr_value : D) (params : BalanceParameters D)
      (area : Area D)
      → detect_balance_area ny candles atr_value params ≡ go_on area
      → IsBalance ny candles atr_value params area
  unfolding detect_balance_area
  detect_balance_area-IsBalance ny candles atr_value params area h =
      let cs = area_candles candles params.balance_lookback_candles in
      let (e0, h0) =
        reject_if-go_on (ltb (length candles) (params.balance_lookback_candles + 1))
          RejectionReason.incomplete_setup _ area h in
      let (e1, h1) =
        reject_if-go_on (is_zero ((highest cs ⊕ lowest cs) ⊘ d.of_ℕ 2))
          RejectionReason.incomplete_setup _ area h0 in
      let (days, h2) =
        reject_if-go_on (ltb (length (sorted_dates (map (λ c. et_date ny c.timestamp) cs))) 2)
          RejectionReason.no_balance_area _ area h1 in
      let (narrow, h3) =
        reject_if-go_on
          (lt params.balance_max_width_pct (area_of cs atr_value).width_pct
            || lt params.balance_max_width_atr_mult (area_of cs atr_value).width_atr)
          RejectionReason.no_balance_area (go_on (area_of cs atr_value)) area h2 in
      let (w1, w2) =
        or-false (lt params.balance_max_width_pct (area_of cs atr_value).width_pct)
          (lt params.balance_max_width_atr_mult (area_of cs atr_value).width_atr) narrow in
      let same = go_on-inj (area_of cs atr_value) area h3 in
      (
        sym same,
        subst (λ a. a.width_pct ≼ params.balance_max_width_pct) same
            (lt-false params.balance_max_width_pct (area_of cs atr_value).width_pct w1),
        subst (λ a. a.width_atr ≼ params.balance_max_width_atr_mult) same
            (lt-false params.balance_max_width_atr_mult (area_of cs atr_value).width_atr w2),
        ltb-false _ 2 days,
      )

  breakout_of-BrokeOut :
      (area : Area D) (direction : Direction) (bar c : Candle D)
      → breakout_of area c ≡ go_on (direction, bar)
      → (c ≡ bar) × BrokeOut direction area bar
  unfolding breakout_of
  breakout_of-BrokeOut area long bar c h = (ground arith, ground arith)
  breakout_of-BrokeOut area short bar c h = (ground arith, ground arith)

  detect_breakout-BrokeOut :
      (candles : List (Candle D)) (area : Area D) (direction : Direction) (bar : Candle D)
      → detect_breakout candles area ≡ go_on (direction, bar)
      → (get_last? candles ≡ some bar) × BrokeOut direction area bar
  unfolding detect_breakout
  detect_breakout-BrokeOut candles area direction bar h = elim (Option-cases (get_last? candles)) [
    | inl n ↦ cc (rw (n, detect_breakout) at h)
    | inr (c, e) ↦
        let (same, out) =
          breakout_of-BrokeOut area direction bar c (rw (e, detect_breakout) at h) in
        (e ∙ ap some same, out)
  ]

  breakout_checked-bounds :
      (p q : Prices D) (atr_value : D) (params : BalanceParameters D)
      → breakout_checked p atr_value params ≡ go_on q
      → (q ≡ p)
        × (risk_distance p ≼ params.max_stop_atr_mult ⊗ atr_value)
        × (params.min_risk_reward ≼ risk_reward p)
  unfolding breakout_checked
  breakout_checked-bounds p q atr_value params h = (ground arith, ground arith, ground arith)

  -- Where a signal comes from: the average range, the area and the bar that broke out of it.
  abbrev pub ComesFrom :
      NewYork → BalanceParameters D → List (Candle D) → Direction → D → Area D → Candle D → Type 0
  ComesFrom ny params candles direction atr_value area bar =
      (atr candles params.atr_period ≡ some atr_value)
      × IsBalance ny candles atr_value params area
      × (get_last? candles ≡ some bar)
      × BrokeOut direction area bar

  -- The prices of the breakout, with a risk and a ratio within the limits.
  abbrev pub HasBreakoutPrices : BalanceParameters D → D → Area D → Candle D → Signal D → Type 0
  HasBreakoutPrices params atr_value area bar s =
      let p = breakout_prices s.direction bar area atr_value params in
      (prices_of s ≡ go_on p)
      × (risk_distance p ≼ params.max_stop_atr_mult ⊗ atr_value)
      × (params.min_risk_reward ≼ risk_reward p)

  built-HasBreakoutPrices :
      (ny : NewYork) (candles : List (Candle D)) (symbol : String) (timeframe : TimeFrame)
      (direction : Direction) (p : Prices D) (params : BalanceParameters D) (now : ℕ)
      (atr_value : D) (area : Area D) (bar : Candle D) (s : Signal D)
      → ComesFrom ny params candles direction atr_value area bar
      → breakout_checked (breakout_prices direction bar area atr_value params) atr_value params
        ≡ go_on p
      → go_on (breakout_signal symbol timeframe direction p params now) ≡ go_on s
      → ComesFrom ny params candles s.direction atr_value area bar
        × HasBreakoutPrices params atr_value area bar s
  unfolding breakout_signal prices_of
  built-HasBreakoutPrices ny candles symbol timeframe direction p params now atr_value area bar s
        from checked h =
      let priced = breakout_prices direction bar area atr_value params in
      let (same, narrow, enough) = breakout_checked-bounds priced p atr_value params checked in
      subst
        (λ t.
          ComesFrom ny params candles t.direction atr_value area bar
          × HasBreakoutPrices params atr_value area bar t)
        (go_on-inj (breakout_signal symbol timeframe direction p params now) s h)
        (from, (ap go_on same, narrow, enough))

  -- A signal of the strategy comes from a last candle within the window, which closed beyond the
  -- candles before it, above for a purchase and below for a sale, where these were narrow and of more
  -- than one day; its prices are those of the breakout, their risk is at most so many average ranges,
  -- and they have the ratio that the strategy asks for.
  pub breakout-IsSound :
      (ny : NewYork) (now : ℕ) (symbol : String) (params : BalanceParameters D)
      (candles : List (Candle D)) (s : Signal D)
      → analyze_candles ny now symbol params candles ≡ signal s
      → LastWithin ny params.trading_start_time params.trading_end_time candles
        × ((atr_value : D) × ((area : Area D) × ((bar : Candle D) × (ComesFrom ny params candles
                    s.direction atr_value area bar
                  × HasBreakoutPrices params atr_value area bar s))))
  unfolding analyze_candles decide_signal check_hours
  breakout-IsSound ny now symbol params candles s h =
      let h0 = answer-signal (decide_signal ny now symbol params candles) s h in
      let (enough, h1) =
        reject_if-go_on (ltb (length candles) (params.balance_lookback_candles + 1))
          RejectionReason.incomplete_setup _ s h0 in
      let (timeframe, (e2, h2)) = bind-go_on (needed params.operational_timeframe) _ s h1 in
      let (ctx, (e3, h3)) =
        bind-go_on (needed (analyze_context (analyzer_of params) symbol timeframe candles)) _ s
          h2 in
      let (u, (hours, h4)) = bind-go_on (check_hours ny candles params) _ s h3 in
      let (atr_value, (e5, h5)) = bind-go_on (needed (atr candles params.atr_period)) _ s h4 in
      let (area, (e6, h6)) = bind-go_on (detect_balance_area ny candles atr_value params) _ s h5 in
      let (broken, (e7, h7)) = bind-go_on (detect_breakout candles area) _ s h6 in
      let priced = breakout_prices broken.0 broken.1 area atr_value params in
      let (last, out) = detect_breakout-BrokeOut candles area broken.0 broken.1 e7 in
      let from : ComesFrom ny params candles broken.0 atr_value area broken.1 = (
        needed-go_on (atr candles params.atr_period) atr_value e5,
        detect_balance_area-IsBalance ny candles atr_value params area e6,
        last,
        out,
      ) in
      let (p, (e8, h8)) = bind-go_on (breakout_checked priced atr_value params) _ s h7 in
      (
        last_in_hours-LastWithin ny params.trading_start_time params.trading_end_time candles hours,
        (
          atr_value,
          (
            area,
            (
              broken.1,
              built-HasBreakoutPrices ny candles symbol timeframe broken.0 p params now atr_value
                  area broken.1 s from e8 h8,
            ),
          ),
        ),
      )

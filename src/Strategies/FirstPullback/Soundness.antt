-- ===== src/Strategies/FirstPullback/Soundness.antt =====
-- What holds of a signal of the strategy.
use daytradebot.Base.{
  ℕ, ◌≡◌, ap, sym, String, none, some, List, length, arith, leb, Bool, true, false, if◌then◌else◌,
  ◌-◌,
}
use daytradebot.Decimal.{Decimal, IsRounded, ◌⊖◌, ◌⊗◌, ◌⊘◌, le, lt, ◌≼◌, ◌≺◌}
use daytradebot.Session.{NewYork}
use daytradebot.Indicators.{atr}
use daytradebot.Context.{analyze as analyze_context}
use daytradebot.Domain.Market.{Candle, TimeFrame}
use daytradebot.Domain.Signals.{Signal, signal, RejectionReason}
use daytradebot.Risk.{Check, go_on, reject, Prices, prices_of}
use daytradebot.Strategies.Checks.{
  needed, answer-signal, bind-go_on, reject_if-go_on, LastWithin, last_in_hours-LastWithin,
  go_on-inj, lt-false, needed-go_on, built-prices,
}
use daytradebot.Strategies.FirstPullback.Params.{FirstPullbackParameters}
use daytradebot.Strategies.FirstPullback.Level.{Breakout, check_hours, detect_breakout, avg_range}
use daytradebot.Strategies.FirstPullback.Pullback.{PullbackSetup, detect_first_pullback}
use daytradebot.Strategies.FirstPullback.Entry.{
  pullback_prices, within_noise, pullback_checked, pullback_signal,
}
use daytradebot.Strategies.FirstPullback.Analysis.{
  analyzer_of, candidate, Search, found, missed, search_window, chosen, finish, decide_signal,
  analyze_candles,
}
use daytradebot.Strategies.FirstPullback.Found.{
  IsShortest, search-IsShortest, IsBreakout, detect_breakout-IsBreakout, HasPulledBack,
  detect_first_pullback-HasPulledBack,
}

unless_rejected :
    {A : Type 0} (t : Bool) (r : RejectionReason) (c : Check A) (a : A)
    → (if t then reject r else c) ≡ go_on a
    → c ≡ go_on a
unless_rejected true r c a h = cc
unless_rejected false r c a h = h

module _ {D : Type 0} ⦃d : Decimal D⦄ where
  -- What the checks of the prices establish.
  abbrev pub WithinBounds : D → FirstPullbackParameters D → Prices D → Type 0
  WithinBounds atr_value params p =
      (d.nought ≺ p.entry ⊖ p.stop)
      × (p.entry ⊖ p.stop ≼ params.max_stop_atr_mult ⊗ atr_value)
      × (p.entry ≺ p.target)
      × (params.min_risk_reward ≼ (p.target ⊖ p.entry) ⊘ (p.entry ⊖ p.stop))

  pullback_checked-WithinBounds :
      (candles : List (Candle D)) (p q : Prices D) (atr_value : D)
      (params : FirstPullbackParameters D)
      → pullback_checked candles p atr_value params ≡ go_on q
      → (q ≡ p) × WithinBounds atr_value params p
  unfolding pullback_checked
  pullback_checked-WithinBounds candles p q atr_value params h =
      let risk = p.entry ⊖ p.stop in
      let (e0, h0) = reject_if-go_on (le risk d.nought) RejectionReason.stop_too_wide _ q h in
      let (e1, h1) =
        reject_if-go_on
          (within_noise risk (avg_range candles (length candles) params.avg_period) params)
          RejectionReason.stop_within_noise _ q h0 in
      let (e2, h2) =
        reject_if-go_on (lt (params.max_stop_atr_mult ⊗ atr_value) risk)
          RejectionReason.stop_too_wide _ q h1 in
      let (e3, h3) =
        reject_if-go_on (le p.target p.entry) RejectionReason.poor_risk_reward _ q h2 in
      let (e4, h4) =
        reject_if-go_on (lt ((p.target ⊖ p.entry) ⊘ risk) params.min_risk_reward)
          RejectionReason.poor_risk_reward (go_on p) q h3 in
      (
        sym (go_on-inj p q h4),
        (
          ground arith,
          lt-false (params.max_stop_atr_mult ⊗ atr_value) risk e2,
          ground arith,
          lt-false ((p.target ⊖ p.entry) ⊘ risk) params.min_risk_reward e4,
        ),
      )

  -- A breakout that is chosen is the one that the search found.
  chosen-found :
      (candles : List (Candle D)) (atr_value : D) (params : FirstPullbackParameters D)
      (r : Search D) (b : Breakout D)
      → chosen candles atr_value params r ≡ go_on b
      → r ≡ found b
  chosen-found candles atr_value params (found a) b h = ap found (go_on-inj a b h)
  chosen-found candles atr_value params (missed first) b h = ground arith

  candidate-IsBreakout :
      (candles : List (Candle D)) (len : ℕ) (atr_value : D) (params : FirstPullbackParameters D)
      (b : Breakout D)
      → candidate candles len atr_value params ≡ go_on b
      → IsBreakout candles atr_value params b
  candidate-IsBreakout candles len atr_value params b h =
      detect_breakout-IsBreakout candles (length candles - 1 - len) atr_value params b (
        unless_rejected (leb (length candles) len) RejectionReason.incomplete_setup
          (detect_breakout candles (length candles - 1 - len) atr_value params) b h)

  -- The prices are those of the setup, and within the bounds.
  abbrev pub HasPullbackPrices : D → FirstPullbackParameters D → PullbackSetup D → Signal D → Type 0
  HasPullbackPrices atr_value params setup s =
      let p = pullback_prices setup params in
      (prices_of s ≡ go_on p) × (p.stop ≺ p.entry) × WithinBounds atr_value params p

  -- Where a signal comes from: the breakout and the pullback from it.
  abbrev pub ComesFrom :
      FirstPullbackParameters D → List (Candle D) → D → Breakout D → PullbackSetup D → Type 0
  ComesFrom params candles atr_value b setup =
      (atr candles params.atr_period ≡ some atr_value)
      × IsShortest params.pullback_min_candles candles atr_value params b
      × IsBreakout candles atr_value params b
      × HasPulledBack candles params b setup

  found-ComesFrom :
      (params : FirstPullbackParameters D) (candles : List (Candle D)) (atr_value : D)
      (b : Breakout D) (setup : PullbackSetup D)
      → atr candles params.atr_period ≡ some atr_value
      → chosen candles atr_value params (search_window candles atr_value params) ≡ go_on b
      → detect_first_pullback candles b params ≡ go_on setup
      → ComesFrom params candles atr_value b setup
  found-ComesFrom params candles atr_value b setup known picked pulled =
      let (len, (least, at, before)) =
        search-IsShortest _ params.pullback_min_candles candles atr_value params none b (
          chosen-found candles atr_value params (search_window candles atr_value params) b
            picked) in
      (
        known,
        (len, (least, at, before)),
        candidate-IsBreakout candles len atr_value params b at,
        detect_first_pullback-HasPulledBack candles b params setup pulled,
      )

  pullback_signal-HasPullbackPrices :
      (laws : IsRounded D) (candles : List (Candle D)) (symbol : String) (timeframe : TimeFrame)
      (setup : PullbackSetup D) (p : Prices D) (params : FirstPullbackParameters D) (now : ℕ)
      (atr_value : D) (s : Signal D)
      → pullback_checked candles (pullback_prices setup params) atr_value params ≡ go_on p
      → go_on (pullback_signal symbol timeframe p params now) ≡ go_on s
      → HasPullbackPrices atr_value params setup s
  unfolding pullback_signal prices_of
  pullback_signal-HasPullbackPrices laws candles symbol timeframe setup p params now atr_value s
        checked h =
      let q = pullback_prices setup params in
      let (same, bounds) = pullback_checked-WithinBounds candles q p atr_value params checked in
      (
        built-prices (pullback_signal symbol timeframe p params now) s q (ap go_on same) h,
        laws.sub_pos q.entry q.stop bounds.0,
        bounds,
      )

  -- Where the numbers are rounded to the nearest, a signal of the strategy comes from a last candle
  -- within the window. Of the lengths that the pullback may have, it takes the shortest that has a
  -- breakout: a close that far over a level touched often enough, at its first attempt and with range
  -- and volume enough. The pullback since then has kept to its share of the impulse and has no close
  -- under the pivot; the prices are those of the setup, the stop under the entry and the target over
  -- it, with the ratio that the strategy asks for.
  pub first_pullback-IsSound :
      (laws : IsRounded D) (ny : NewYork) (now : ℕ) (symbol : String)
      (params : FirstPullbackParameters D) (candles : List (Candle D)) (s : Signal D)
      → analyze_candles ny now symbol params candles ≡ signal s
      → LastWithin ny params.trading_start_time params.trading_end_time candles
        × ((atr_value : D) × ((b : Breakout D) × ((setup : PullbackSetup D) × (ComesFrom params
                    candles atr_value b setup
                  × HasPullbackPrices atr_value params setup s))))
  unfolding analyze_candles decide_signal check_hours finish
  first_pullback-IsSound laws ny now symbol params candles s h =
      let h0 = answer-signal (decide_signal ny now symbol params candles) s h in
      let (some_candle, h1) =
        reject_if-go_on (leb (length candles) 0) RejectionReason.incomplete_setup _ s h0 in
      let (timeframe, (e2, h2)) = bind-go_on (needed params.operational_timeframe) _ s h1 in
      let (ctx, (e3, h3)) =
        bind-go_on (needed (analyze_context (analyzer_of params) symbol timeframe candles)) _ s
          h2 in
      let (u, (hours, h4)) = bind-go_on (check_hours ny candles params) _ s h3 in
      let (atr_value, (e5, h5)) = bind-go_on (needed (atr candles params.atr_period)) _ s h4 in
      let (b, (e6, h6)) =
        bind-go_on (chosen candles atr_value params (search_window candles atr_value params)) _ s
          h5 in
      let (setup, (e7, h7)) = bind-go_on (detect_first_pullback candles b params) _ s h6 in
      let (p, (e8, h8)) =
        bind-go_on (pullback_checked candles (pullback_prices setup params) atr_value params) _ s
          h7 in
      (
        last_in_hours-LastWithin ny params.trading_start_time params.trading_end_time candles hours,
        (
          atr_value,
          (
            b,
            (
              setup,
              (
                found-ComesFrom params candles atr_value b setup
                    (needed-go_on (atr candles params.atr_period) atr_value e5) e6 e7,
                pullback_signal-HasPullbackPrices laws candles symbol timeframe setup p params now
                    atr_value s e8 h8,
              ),
            ),
          ),
        ),
      )

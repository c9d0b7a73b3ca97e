-- ===== src/Strategies/OpeningReversal/Soundness.antt =====
-- What holds of a signal of the strategy, and what the risk manager makes of it.
use daytradebot.Base.{ℕ, ◌≡◌, refl, String, List, arith, ltb, length}
use daytradebot.Decimal.{Decimal, IsOrdered, ◌≼◌}
use daytradebot.Session.{NewYork}
use daytradebot.Indicators.{atr}
use daytradebot.Context.{analyze as analyze_context}
use daytradebot.Domain.Market.{Candle, TimeFrame}
use daytradebot.Domain.Signals.{Signal, signal, RejectionReason}
use daytradebot.Risk.{go_on, Prices, RiskConfig, prices_of, risk_reward}
use daytradebot.Strategies.Checks.{
  needed, answer-signal, bind-go_on, reject_if-go_on, HasRatio, LastWithin,
  last_in_hours-LastWithin, built-prices,
}
use daytradebot.Strategies.OpeningReversal.Params.{StrategyParameters}
use daytradebot.Strategies.OpeningReversal.Levels.{check_trading_hours, yesterday_levels}
use daytradebot.Strategies.OpeningReversal.Setup.{ReversalSetup, detect_setup}
use daytradebot.Strategies.OpeningReversal.Entry.{
  EntryPrices, evaluate_prices, ratio_of, build_signal,
}
use daytradebot.Strategies.OpeningReversal.Analysis.{analyzer_of, decide_signal, analyze_candles}

module _ {D : Type 0} ⦃d : Decimal D⦄ where
  evaluate_prices-ratio :
      (s : ReversalSetup D) (atr_value : D) (params : StrategyParameters D) (p : EntryPrices D)
      → evaluate_prices s atr_value params ≡ go_on p
      → params.min_risk_reward ≼ ratio_of p
  unfolding evaluate_prices
  evaluate_prices-ratio s atr_value params p h = ground arith

  -- The last candle of the series lies within the window of the strategy.
  abbrev pub LastWithinWindow : NewYork → StrategyParameters D → List (Candle D) → Type 0
  LastWithinWindow ny params candles =
      LastWithin ny params.trading_start_time params.trading_end_time candles

  built-HasRatio :
      (symbol : String) (timeframe : TimeFrame) (setup : ReversalSetup D) (prices : EntryPrices D)
      (params : StrategyParameters D) (now : ℕ) (s : Signal D)
      → params.min_risk_reward ≼ ratio_of prices
      → go_on (build_signal symbol timeframe setup prices params now) ≡ go_on s
      → HasRatio params.min_risk_reward s
  unfolding build_signal prices_of
  built-HasRatio symbol timeframe setup prices params now s enough h =
      let p : Prices D = record {
        entry = prices.entry_price;
        stop = prices.stop_price;
        target = prices.target_price;
      } in
      (p, (built-prices (build_signal symbol timeframe setup prices params now) s p refl h, enough))

  decide_signal-IsSound :
      (ny : NewYork) (now : ℕ) (symbol : String) (params : StrategyParameters D)
      (candles : List (Candle D)) (s : Signal D)
      → decide_signal ny now symbol params candles ≡ go_on s
      → LastWithinWindow ny params candles × HasRatio params.min_risk_reward s
  unfolding decide_signal check_trading_hours
  decide_signal-IsSound ny now symbol params candles s h =
      let (long_enough, h1) =
        reject_if-go_on (ltb (length candles) 2) RejectionReason.incomplete_setup _ s h in
      let (timeframe, (e1, h2)) = bind-go_on (needed params.operational_timeframe) _ s h1 in
      let (ctx, (e2, h3)) =
        bind-go_on (needed (analyze_context (analyzer_of params) symbol timeframe candles)) _ s
          h2 in
      let (u, (hours, h4)) = bind-go_on (check_trading_hours ny candles params) _ s h3 in
      let (levels, (e4, h5)) = bind-go_on (needed (yesterday_levels ny candles)) _ s h4 in
      let (atr_value, (e5, h6)) = bind-go_on (needed (atr candles params.atr_period)) _ s h5 in
      let (setup, (e6, h7)) = bind-go_on (detect_setup candles levels params) _ s h6 in
      let (prices, (e7, h8)) = bind-go_on (evaluate_prices setup atr_value params) _ s h7 in
      (
        last_in_hours-LastWithin ny params.trading_start_time params.trading_end_time candles hours,
        built-HasRatio symbol timeframe setup prices params now s
            (evaluate_prices-ratio setup atr_value params prices e7) h8,
      )

  -- A signal of the strategy comes from a series whose last candle lies within the window of the
  -- strategy, its entry, stop and target are all there, and a risk manager whose least ratio is no
  -- higher than the strategy's does not find its ratio too low.
  pub analyze_candles-IsSound :
      (laws : IsOrdered D) (cfg : RiskConfig D) (ny : NewYork) (now : ℕ) (symbol : String)
      (params : StrategyParameters D) (candles : List (Candle D)) (s : Signal D)
      → cfg.min_risk_reward ≼ params.min_risk_reward
      → analyze_candles ny now symbol params candles ≡ signal s
      → LastWithinWindow ny params candles
        × ((p : Prices D) × ((prices_of s ≡ go_on p) × (cfg.min_risk_reward ≼ risk_reward p)))
  unfolding analyze_candles
  analyze_candles-IsSound laws cfg ny now symbol params candles s lower h =
      let decided = answer-signal (decide_signal ny now symbol params candles) s h in
      let (within, (p, (found, enough))) =
        decide_signal-IsSound ny now symbol params candles s decided in
      (
        within,
        (
          p,
          (
            found,
            laws.le_trans cfg.min_risk_reward params.min_risk_reward (risk_reward p) lower enough,
          ),
        ),
      )

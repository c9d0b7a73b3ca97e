-- ===== src/Risk/Approval.antt =====
-- What an approval of `RiskManager::validate` means.
use daytradebot.Base.{
  ◌<◌, ◌≡◌, ◌≢◌, ◌⊎◌, refl, true, Option, none, some, List, arith, inl, inr, Option-cases, subst,
}
use daytradebot.Decimal.{Decimal, ◌⊗◌, ◌⊘◌, ◌≼◌, ◌≺◌, IsOrdered, min-le_left, min-le_right}
use daytradebot.Session.{NewYork, within_trading_window}
use daytradebot.Domain.Market.{Candle, MarketContext, Quote, high}
use daytradebot.Domain.Signals.{Direction, RejectionReason, Signal}
use daytradebot.Domain.Trades.{paper}
use daytradebot.Risk.Config.{RiskConfig, teto_de_notional}
use daytradebot.Risk.Liquidity.{median_bar_notional}
use daytradebot.Risk.Manager.{
  RiskState, RiskCheck, approved, Check, go_on, reject, Prices, day_gates, prices_of, market_gates,
  price_gates, spread_of, sides_ok, risk_distance, risk_reward, qty_by_risk, measure_liquidity,
  size_under, sizing, checked, validate,
}

Check-cases :
    {A : Type 0} (m : Check A)
    → ((a : A) × (m ≡ go_on a)) ⊎ ((r : RejectionReason) × (m ≡ reject r))
Check-cases (go_on a) = inl (a, refl)
Check-cases (reject r) = inr (r, refl)

module _ {D : Type 0} ⦃d : Decimal D⦄ where
  -- The mode is paper, the instant is within the hours, and no limit of the day is reached.
  pub record DayIsOpen (cfg : RiskConfig D) (ny : NewYork) (ctx : MarketContext D)
      (state : RiskState D) (money : D) : Type 0 where
    pub is_paper : cfg.trading_mode ≡ paper
    pub in_hours :
        within_trading_window ny ctx.timestamp cfg.trading_start_time_et cfg.trading_end_time_et
        ≡ true
    pub loss_left : (d.neg money ⊗ cfg.max_daily_loss_pct ⊘ d.of_ℕ 100) ≺ state.daily_pnl
    pub trades_left : state.daily_trades < cfg.max_trades_per_day
    pub losses_left : state.consecutive_losses < cfg.max_consecutive_losses

  day_gates-DayIsOpen :
      (cfg : RiskConfig D) (ny : NewYork) (ctx : MarketContext D) (state : RiskState D) (money : D)
      → day_gates cfg ny ctx state money ≡ go_on tt
      → DayIsOpen cfg ny ctx state money
  unfolding day_gates
  day_gates-DayIsOpen cfg ny ctx state money h = record {
    is_paper = ground arith;
    in_hours = ground arith;
    loss_left = ground arith;
    trades_left = ground arith;
    losses_left = ground arith;
  }

  abbrev pub Under : Option D → D → Type 0
  Under none limit = Unit
  Under (some v) limit = v ≼ limit

  -- The context is tradeable, its volatility, range and spread are within the limits, and stop and
  -- target lie on their sides of the entry at a sufficient ratio.
  pub record PricesAreSound (cfg : RiskConfig D) (signal : Signal D) (ctx : MarketContext D)
      (quote : Option (Quote D)) (p : Prices D) : Type 0 where
    pub has_entry : signal.entry_price ≡ some p.entry
    pub has_stop : signal.stop_price ≡ some p.stop
    pub has_target : signal.target_price ≡ some p.target
    pub is_tradeable : ctx.is_tradeable ≡ true
    pub is_calm : ctx.volatility_regime ≢ high
    pub atr_under : Under ctx.atr_14 cfg.max_atr_pct
    pub spread_under : Under (spread_of quote) cfg.max_spread_pct
    pub sides : sides_ok signal.direction p ≡ true
    pub ratio : cfg.min_risk_reward ≼ risk_reward p

  prices_of-eq :
      (s : Signal D) (p : Prices D)
      → prices_of s ≡ go_on p
      → (s.entry_price ≡ some p.entry)
        × (s.stop_price ≡ some p.stop)
        × (s.target_price ≡ some p.target)
  unfolding prices_of
  prices_of-eq s p h = (ground arith, ground arith, ground arith)

  market_gates-open :
      (cfg : RiskConfig D) (ctx : MarketContext D) (q : Option (Quote D))
      → market_gates cfg ctx q ≡ go_on tt
      → (ctx.is_tradeable ≡ true)
        × (ctx.volatility_regime ≢ high)
        × Under ctx.atr_14 cfg.max_atr_pct
        × Under (spread_of q) cfg.max_spread_pct
  unfolding market_gates
  market_gates-open cfg ctx q h = (ground arith, λ e. ground arith, ground arith, ground arith)

  price_gates-open :
      (cfg : RiskConfig D) (dir : Direction) (p : Prices D)
      → price_gates cfg dir p ≡ go_on tt
      → (sides_ok dir p ≡ true) × (cfg.min_risk_reward ≼ risk_reward p)
  unfolding price_gates
  price_gates-open cfg dir p h = (ground arith, ground arith)

  -- The size is at least one unit, and neither above what the risk budget buys nor above what the
  -- ceiling buys; if the liquidity cap is on, the ceiling is taken with the median that was measured.
  pub record SizeIsSound (cfg : RiskConfig D) (money : D) (cs : List (Candle D)) (p : Prices D)
      (size : D) : Type 0 where
    pub mediana : Option D
    pub measured :
        (cfg.max_pct_of_median_bar_notional ≡ none)
        ⊎ ((mediana ≡ median_bar_notional cs cfg.liquidity_lookback_bars) × (mediana ≢ none))
    pub at_least_one : d.unity ≼ size
    pub under_risk : size ≼ qty_by_risk cfg money p
    pub under_ceiling : size ≼ d.trunc ((teto_de_notional cfg money mediana).0 ⊘ p.entry)

  measure_liquidity-measured :
      (cfg : RiskConfig D) (cs : List (Candle D)) (m : Option D)
      → measure_liquidity cfg cs ≡ go_on m
      → (cfg.max_pct_of_median_bar_notional ≡ none)
        ⊎ ((m ≡ median_bar_notional cs cfg.liquidity_lookback_bars) × (m ≢ none))
  unfolding measure_liquidity
  measure_liquidity-measured cfg cs m h = elim (Option-cases cfg.max_pct_of_median_bar_notional) [
    | inl off ↦ inl off
    | inr (pct, on) ↦ inr (ground arith, λ e. ground arith)
  ]

  sizing_parts :
      (cfg : RiskConfig D) (money : D) (cs : List (Candle D)) (p : Prices D) (m : Option D)
      (size : D)
      → sizing cfg money cs p ≡ go_on size
      → measure_liquidity cfg cs ≡ go_on m
      → (size ≡ size_under cfg money p m) × (d.unity ≼ size_under cfg money p m)
  unfolding sizing
  sizing_parts cfg money cs p m size h e = (ground arith, ground arith)

  checked_parts :
      (cfg : RiskConfig D) (ny : NewYork) (signal : Signal D) (ctx : MarketContext D)
      (quote : Option (Quote D)) (state : RiskState D) (money : D) (cs : List (Candle D))
      (p : Prices D) (size : D)
      → checked cfg ny signal ctx quote state money cs ≡ go_on (p, size)
      → (day_gates cfg ny ctx state money ≡ go_on tt)
        × (prices_of signal ≡ go_on p)
        × (market_gates cfg ctx quote ≡ go_on tt)
        × (price_gates cfg signal.direction p ≡ go_on tt)
        × (sizing cfg money cs p ≡ go_on size)
  unfolding checked
  checked_parts cfg ny signal ctx quote state money cs p size h =
      (ground arith, ground arith, ground arith, ground arith, ground arith)

  sizing_measures :
      (cfg : RiskConfig D) (money : D) (cs : List (Candle D)) (p : Prices D) (size : D)
      {r : RejectionReason}
      → sizing cfg money cs p ≡ go_on size
      → measure_liquidity cfg cs ≡ reject r
      → ⊥
  unfolding sizing
  sizing_measures cfg money cs p size h e = ground arith

  -- The prices of the signal at which an approval of this size and risk is sound.
  abbrev pub IsSound :
      RiskConfig D
      → NewYork
      → Signal D
      → MarketContext D
      → Option (Quote D)
      → RiskState D
      → D
      → List (Candle D)
      → D
      → D
      → Type 0
  IsSound cfg ny signal ctx quote state money cs size risk =
      (p : Prices D) × DayIsOpen cfg ny ctx state money
      × PricesAreSound cfg signal ctx quote p
      × SizeIsSound cfg money cs p size
      × (risk ≡ risk_distance p ⊗ size)

  pub validate-DayIsOpen :
      (cfg : RiskConfig D) (ny : NewYork) (signal : Signal D) (ctx : MarketContext D)
      (quote : Option (Quote D)) (state : RiskState D) (money : D) (cs : List (Candle D))
      {size risk : D}
      → validate cfg ny signal ctx quote state money cs ≡ approved size risk
      → DayIsOpen cfg ny ctx state money
  unfolding validate
  validate-DayIsOpen cfg ny signal ctx quote state money cs h =
      elim (Check-cases (checked cfg ny signal ctx quote state money cs)) [
        | inr (r, e) ↦ cc (rw e at h)
        | inl ((p, size'), e) ↦
            day_gates-DayIsOpen cfg ny ctx state money
              (checked_parts cfg ny signal ctx quote state money cs p size' e).0
      ]

  module _ (order : IsOrdered D) where
    sizing-SizeIsSound :
        (cfg : RiskConfig D) (money : D) (cs : List (Candle D)) (p : Prices D) (size : D)
        → sizing cfg money cs p ≡ go_on size
        → SizeIsSound cfg money cs p size
    sizing-SizeIsSound cfg money cs p size h = elim (Check-cases (measure_liquidity cfg cs)) [
      | inr (r, e) ↦ absurd (sizing_measures cfg money cs p size h e)
      | inl (m, e) ↦
          let (same, one) = sizing_parts cfg money cs p m size h e in
          record {
            mediana = m;
            measured = measure_liquidity-measured cfg cs m e;
            at_least_one = rw same one;
            under_risk = rw same (min-le_left order _ _);
            under_ceiling = rw same (min-le_right order _ _);
          }
    ]

    -- If a signal is approved, then at the prices it carries the day is open (paper mode, within the
    -- trading hours, under the limits of loss, trades and losses in a row), the prices are sound (a
    -- tradeable context whose volatility, range and spread are within the limits, stop and target on
    -- their sides, a sufficient ratio), the size is sound (one unit or more, and no more than the risk
    -- budget and the notional ceiling buy), and the risk is the distance of the stop times the size.
    pub validate-IsSound :
        (cfg : RiskConfig D) (ny : NewYork) (signal : Signal D) (ctx : MarketContext D)
        (quote : Option (Quote D)) (state : RiskState D) (money : D) (cs : List (Candle D))
        {size risk : D}
        → validate cfg ny signal ctx quote state money cs ≡ approved size risk
        → IsSound cfg ny signal ctx quote state money cs size risk
    unfolding validate
    validate-IsSound cfg ny signal ctx quote state money cs {size} {risk} h =
        elim (Check-cases (checked cfg ny signal ctx quote state money cs)) [
          | inr (r, e) ↦ cc (rw e at h)
          | inl ((p, size'), e) ↦
              let same : RiskCheck.approved size' (risk_distance p ⊗ size') ≡ approved size risk =
                rw e at h in
              let (e1, e2, e3, e4, e5) =
                checked_parts cfg ny signal ctx quote state money cs p size' e in
              let (has_entry, has_stop, has_target) = prices_of-eq signal p e2 in
              let (tradeable, calm, atr, spread) = market_gates-open cfg ctx quote e3 in
              let (sides, ratio) = price_gates-open cfg signal.direction p e4 in
              let sized : size' ≡ size = cc in
              (
                p,
                day_gates-DayIsOpen cfg ny ctx state money e1,
                record {
                  has_entry = has_entry;
                  has_stop = has_stop;
                  has_target = has_target;
                  is_tradeable = tradeable;
                  is_calm = calm;
                  atr_under = atr;
                  spread_under = spread;
                  sides = sides;
                  ratio = ratio;
                },
                subst (SizeIsSound cfg money cs p) sized
                    (sizing-SizeIsSound cfg money cs p size' e5),
                cc,
              )
        ]

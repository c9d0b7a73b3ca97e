-- ===== src/Risk/Acceptance.antt =====
-- What suffices for an approval of `RiskManager::validate`.
use daytradebot.Base.{◌≡◌, false, Option, List, arith}
use daytradebot.Decimal.{Decimal, ◌⊗◌, ◌≼◌, ◌≺◌, is_zero}
use daytradebot.Session.{NewYork}
use daytradebot.Domain.Market.{Candle, MarketContext, Quote}
use daytradebot.Domain.Signals.{Signal}
use daytradebot.Risk.Config.{RiskConfig}
use daytradebot.Risk.Manager.{
  RiskState, approved, go_on, Prices, day_gates, prices_of, market_gates, price_gates,
  risk_distance, qty_by_risk, measure_liquidity, size_under, sizing, checked, validate,
}
use daytradebot.Risk.Approval.{DayIsOpen, PricesAreSound}

module _ {D : Type 0} ⦃d : Decimal D⦄ (cfg : RiskConfig D) (ny : NewYork) (signal : Signal D)
    (ctx : MarketContext D) (quote : Option (Quote D)) (state : RiskState D) (money : D)
    (cs : List (Candle D)) where
  day_gates_pass : DayIsOpen cfg ny ctx state money → day_gates cfg ny ctx state money ≡ go_on tt
  unfolding day_gates
  day_gates_pass h =
      ground (arith, h.is_paper, h.in_hours, h.loss_left, h.trades_left, h.losses_left)

  prices_of_pass :
      (p : Prices D) → PricesAreSound cfg signal ctx quote p → prices_of signal ≡ go_on p
  unfolding prices_of
  prices_of_pass p h = ground (arith, h.has_entry, h.has_stop, h.has_target)

  market_gates_pass :
      (p : Prices D) → PricesAreSound cfg signal ctx quote p → market_gates cfg ctx quote ≡ go_on tt
  unfolding market_gates
  market_gates_pass p h = ground (arith, h.is_tradeable, h.is_calm, h.atr_under, h.spread_under)

  price_gates_pass :
      (p : Prices D)
      → PricesAreSound cfg signal ctx quote p
      → is_zero (risk_distance p) ≡ false
      → price_gates cfg signal.direction p ≡ go_on tt
  unfolding price_gates
  price_gates_pass p h z = ground (arith, h.sides, h.ratio)

  sizing_pass :
      (p : Prices D) (m : Option D)
      → measure_liquidity cfg cs ≡ go_on m
      → d.nought ≺ qty_by_risk cfg money p
      → d.unity ≼ size_under cfg money p m
      → sizing cfg money cs p ≡ go_on (size_under cfg money p m)
  unfolding sizing
  sizing_pass p m e q u = rw (e, q, u, sizing)

  -- If the day is open, the prices are sound at a risk distance that is not nought, the liquidity is
  -- known where its cap is on, the risk budget buys a positive quantity, and at least one unit is left
  -- under the ceiling, then the signal is approved, at the lesser of the two quantities and with the
  -- real risk.
  pub validate-approved :
      (p : Prices D) (m : Option D)
      → DayIsOpen cfg ny ctx state money
      → PricesAreSound cfg signal ctx quote p
      → is_zero (risk_distance p) ≡ false
      → measure_liquidity cfg cs ≡ go_on m
      → d.nought ≺ qty_by_risk cfg money p
      → d.unity ≼ size_under cfg money p m
      → validate cfg ny signal ctx quote state money cs
        ≡ approved (size_under cfg money p m) (risk_distance p ⊗ size_under cfg money p m)
  unfolding validate checked
  validate-approved p m day sound z e q u = rw (
    day_gates_pass day,
    prices_of_pass p sound,
    market_gates_pass p sound,
    price_gates_pass p sound z,
    sizing_pass p m e q u,
  )

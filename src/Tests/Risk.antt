-- ===== src/Tests/Risk.antt =====
-- Risk management on concrete inputs.
use daytradebot.Base.{true, false, some, arith, ◌≡◌, refl, none}
use daytradebot.Decimal.Integers.{ℤ, pos, integers, ℤ-IsOrdered}
use daytradebot.Risk.{
  Prices, go_on, size_under, qty_by_risk, risk_distance, approved, validate, checked, day_gates,
  prices_of, market_gates, price_gates, sizing, measure_liquidity, capital_efetivo,
  teto_de_notional, cap_absoluto, cap_liquidez,
}
use daytradebot.Risk.Liquidity.{median_bar_notional, sort, insert_sorted, middle}
use daytradebot.Risk.Ceiling.{IsCeiling, capital_cap, liquidity_rule, teto_de_notional-IsCeiling}
use daytradebot.Risk.Approval.{IsSound, validate-IsSound, DayIsOpen, PricesAreSound}
use daytradebot.Risk.Acceptance.{validate-approved}
use daytradebot.Decimal.{◌⊗◌, le}
use daytradebot.Session.{within_trading_window, et_time}
use daytradebot.Tests.{ny, series, context, entry_signal, risk_config, quiet_day}

is_approved :
    validate risk_config ny entry_signal context none quiet_day (pos 10_000) series
    ≡ approved (pos 40) (pos 80)
unfolding validate checked day_gates prices_of market_gates price_gates sizing measure_liquidity
    capital_efetivo teto_de_notional cap_absoluto cap_liquidez median_bar_notional sort
    insert_sorted middle within_trading_window et_time
is_approved = refl

validate-IsSound_example :
    IsSound risk_config ny entry_signal context none quiet_day (pos 10_000) series (pos 40) (pos 80)
validate-IsSound_example =
    validate-IsSound ℤ-IsOrdered risk_config ny entry_signal context none quiet_day (pos 10_000)
      series is_approved

teto_de_notional-IsCeiling_example :
    IsCeiling
      (capital_cap risk_config (pos 10_000))
      (some (pos 4080))
      (liquidity_rule (some (pos 10)) (some (pos 30_000)))
      (teto_de_notional risk_config (pos 10_000) (some (pos 30_000)))
teto_de_notional-IsCeiling_example =
    teto_de_notional-IsCeiling ℤ-IsOrdered risk_config (pos 10_000) (some (pos 30_000))

abbrev prices : Prices ℤ
prices = record { entry = pos 102; stop = pos 100; target = pos 108 }

open_day : DayIsOpen risk_config ny context quiet_day (pos 10_000)
unfolding within_trading_window et_time
open_day = record {
  is_paper = refl;
  in_hours = refl;
  loss_left = refl;
  trades_left = omega arith;
  losses_left = omega arith;
}

sound_prices : PricesAreSound risk_config entry_signal context none prices
sound_prices = record {
  has_entry = refl;
  has_stop = refl;
  has_target = refl;
  is_tradeable = refl;
  is_calm = λ e. cc;
  atr_under = refl;
  spread_under = tt;
  sides = refl;
  ratio = refl;
}

is_measured : measure_liquidity risk_config series ≡ go_on (some (pos 50_250))
unfolding measure_liquidity median_bar_notional sort insert_sorted middle
is_measured = refl

one_fits : le (pos 1) (size_under risk_config (pos 10_000) prices (some (pos 50_250))) ≡ true
unfolding teto_de_notional cap_absoluto cap_liquidez capital_efetivo
one_fits = refl

budget_buys : le (qty_by_risk risk_config (pos 10_000) prices) (pos 0) ≡ false
unfolding capital_efetivo
budget_buys = refl

validate-approved_example :
    validate risk_config ny entry_signal context none quiet_day (pos 10_000) series
    ≡ approved
        (size_under risk_config (pos 10_000) prices (some (pos 50_250)))
        (risk_distance prices ⊗ size_under risk_config (pos 10_000) prices (some (pos 50_250)))
validate-approved_example =
    validate-approved risk_config ny entry_signal context none quiet_day (pos 10_000) series prices
      (some (pos 50_250)) open_day sound_prices refl is_measured budget_buys one_fits

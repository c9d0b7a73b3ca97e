-- ===== src/Live/Gates.antt =====
-- What holds of the account when an entry is placed.
use daytradebot.Base.{
  ◌≡◌, ◌<◌, ◌∙◌, refl, ap, sym, Bool, true, false, Option, none, some, List, length,
}
use daytradebot.Decimal.{Decimal, ◌⊕◌, ◌⊗◌, ◌≼◌, ◌≺◌}
use daytradebot.Domain.Market.{Candle}
use daytradebot.Domain.Trades.{Position}
use daytradebot.Risk.{RiskState}
use daytradebot.Broker.{Result, ok, err}
use daytradebot.Live.State.{PlacedOrderInfo}
use daytradebot.Live.Exposure.{
  PortfolioLimit, portfolio_limit_hit_iff, aggregate, pct_to_fraction, LossIsLeft,
}
use daytradebot.Live.Entry.{
  ExecOutcome, LiveWorker, holds_symbol, notional_prospectivo, account_limit, within_account,
  unless_held, with_positions, with_equity, analyze_and_execute,
}

module _ {D W : Type 0} ⦃d : Decimal D⦄ (x : LiveWorker W D) where
  within_account_placed :
      (reference : Option D) (state : RiskState D) (equity : D) (candles : List (Candle D)) (w : W)
      (limit : Option PortfolioLimit) (info : PlacedOrderInfo D)
      → (within_account x reference state equity candles w limit).1.placed ≡ some info
      → limit ≡ none
  within_account_placed reference state equity candles w none info h = refl
  within_account_placed reference state equity candles w (some limit) info h = cc

  abbrev out_of : Result (ExecOutcome D) → Option (PlacedOrderInfo D)
  out_of (ok out) = out.placed
  out_of (err e) = none

  unless_held_placed :
      (held : Bool) (w : W) (r : W × ExecOutcome D) (info : PlacedOrderInfo D)
      → out_of (unless_held x held w r).1 ≡ some info
      → (held ≡ false) × (r.1.placed ≡ some info)
  unless_held_placed true w r info h = cc
  unless_held_placed false w (w', out) info h = (refl, h)

  -- An entry is only placed within the limits of the account: where the equity and the positions that
  -- the broker answered are these, the equity is positive, and an order was placed, the account holds
  -- no position in the symbol and fewer positions than the limit, their notional is under its cap and
  -- stays within it with the new position at its ceiling, and the loss of the day is known and left.
  pub analyze_and_execute_within_account :
      (reference : Option D) (state : RiskState D) (candles : List (Candle D)) (w w1 w2 : W)
      (equity : D) (positions : List (Position D)) (out : ExecOutcome D) (info : PlacedOrderInfo D)
      → x.broker.account_equity w ≡ (w1, ok equity)
      → x.broker.list_positions w1 ≡ (w2, ok positions)
      → d.nought ≺ equity
      → (analyze_and_execute x reference state candles w).1 ≡ ok out
      → out.placed ≡ some info
      → (holds_symbol x.symbol positions ≡ false)
        × (length positions < x.settings.max_concurrent_positions)
        × (aggregate positions ≺ equity ⊗ pct_to_fraction x.settings.max_portfolio_notional_pct)
        × (aggregate positions ⊕ notional_prospectivo x equity
            ≼ equity ⊗ pct_to_fraction x.settings.max_portfolio_notional_pct)
        × LossIsLeft equity x.settings.max_portfolio_daily_loss_pct (x.day_trades w2)
  unfolding analyze_and_execute
  analyze_and_execute_within_account reference state candles w w1 w2 equity positions out info
        has_equity has_positions pos done placed' =
      let first = ap (λ r. out_of (with_equity x reference state candles r).1) has_equity in
      let second =
        ap (λ r. out_of (with_positions x reference state equity candles r).1) has_positions in
      let outcome = sym (first ∙ second) ∙ ap out_of done ∙ placed' in
      let (free, entered) =
        unless_held_placed (holds_symbol x.symbol positions) w2
          (within_account x reference state equity candles w2 (account_limit x positions equity w2))
          info outcome in
      let passed =
        within_account_placed reference state equity candles w2
          (account_limit x positions equity w2) info entered in
      let (few, under, fits, loss) =
        (portfolio_limit_hit_iff positions equity (x.day_trades w2)
            x.settings.max_concurrent_positions x.settings.max_portfolio_notional_pct
            x.settings.max_portfolio_daily_loss_pct (notional_prospectivo x equity) pos).0
          passed in
      (free, few, under, fits, loss)

-- ===== src/Broker/Costs.antt =====
-- Commission, slippage, the cash of entries and exits, and the trade of a closed position.
use daytradebot.Base.{ℕ, Bool, true, false, if◌then◌else◌}
use daytradebot.Decimal.{Decimal, ◌⊕◌, ◌⊖◌, ◌⊗◌, ◌⊘◌, lt, max, min, is_zero}
use daytradebot.Domain.Signals.{Direction, long, short}
use daytradebot.Domain.Trades.{ExitReason, Position, Trade}
use daytradebot.Broker.State.{CommissionModel, per_trade, per_share, SimulatedBrokerConfig}

abbrev pub is_buy : Direction → Bool → Bool
is_buy long true = true
is_buy long false = false
is_buy short true = false
is_buy short false = true

module _ {D : Type 0} ⦃d : Decimal D⦄ where
  -- `CommissionModel::ibkr_fixed_us`
  unfoldable pub ibkr_fixed_us : CommissionModel D
  ibkr_fixed_us = per_share (d.of_ℕ 5 ⊘ d.of_ℕ 1000) d.unity (d.unity ⊘ d.of_ℕ 100)

  -- `for_execution` of a quantity that is not zero.
  unfoldable pub charge : CommissionModel D → D → D → D
  charge (per_trade valor) quantity price = valor
  charge (per_share each least pct) quantity price =
      let bruta = max (each ⊗ d.abs quantity) least in
      let teto = d.abs price ⊗ d.abs quantity ⊗ pct in
      if lt d.nought teto then min bruta teto else bruta

  unfoldable pub for_execution : CommissionModel D → D → D → D
  unfolding charge
  for_execution model quantity price =
      if is_zero quantity then d.nought else charge model quantity price

  -- The third argument says whether the execution is an entry.
  unfoldable pub apply_slippage : D → Direction → Bool → D → D
  apply_slippage price direction is_entry slippage =
      let factor = d.unity ⊕ slippage in
      if is_buy direction is_entry then price ⊗ factor else price ⊘ factor

  unfoldable pub entry_cash_flow : Direction → D → D → D → D
  entry_cash_flow long fill_price quantity commission = d.neg (fill_price ⊗ quantity) ⊖ commission
  entry_cash_flow short fill_price quantity commission = fill_price ⊗ quantity ⊖ commission

  unfoldable pub exit_cash_flow : Direction → D → D → D → D
  exit_cash_flow long exit_price quantity commission = exit_price ⊗ quantity ⊖ commission
  exit_cash_flow short exit_price quantity commission = d.neg (exit_price ⊗ quantity) ⊖ commission

  unfoldable pub mark_to_market_equity : D → Direction → D → D → D
  mark_to_market_equity cash long price quantity = cash ⊕ price ⊗ quantity
  mark_to_market_equity cash short price quantity = cash ⊖ price ⊗ quantity

  abbrev pub multiplier : Direction → D
  multiplier long = d.unity
  multiplier short = d.neg d.unity

  -- `close_position_to_trade`, which always returns a trade.
  unfoldable pub close_position_to_trade :
      Position D → D → ExitReason → SimulatedBrokerConfig D → ℕ → Trade D
  close_position_to_trade p exit_price exit_reason cfg exit_time =
      let gross_pnl = (exit_price ⊖ p.avg_entry_price) ⊗ p.quantity ⊗ multiplier p.direction in
      let commissions =
        for_execution cfg.commission p.quantity p.avg_entry_price
        ⊕ for_execution cfg.commission p.quantity exit_price in
      let net_pnl = gross_pnl ⊖ commissions in
      let risk_amount = d.abs (p.avg_entry_price ⊖ p.stop_price) ⊗ p.quantity in
      record {
        symbol = p.symbol;
        signal_id = p.signal_id;
        direction = p.direction;
        entry_price = p.avg_entry_price;
        exit_price = exit_price;
        quantity = p.quantity;
        entry_time = p.entry_time;
        exit_time = exit_time;
        stop_price = p.stop_price;
        target_price = p.target_price;
        gross_pnl = gross_pnl;
        commissions = commissions;
        fees = d.nought;
        net_pnl = net_pnl;
        risk_amount = risk_amount;
        result_in_r = if is_zero risk_amount then d.nought else net_pnl ⊘ risk_amount;
        exit_reason = exit_reason;
      }
